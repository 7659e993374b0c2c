-- ===== src/Transport/Addresses.antt =====
-- The comparison of hosts in pkg/v1/remote/transport/bearer.go, and what it uses of the package net.
pub mod Ports
use go_containerregistry.Prelude.{
  ℕ, ◌+◌, ◌≤◌, ◌≡◌, refl, sym, ap, ◌∙◌, Bool, true, false, ◌&&◌, ◌||◌, not, List, [], ◌∷◌, ◌++◌,
  Option, none, some, Str, codes, contains, is_empty, str_eq, has_prefix, leb, ◌==◌, if◌then◌else◌,
  arith,
}

-- strings.Count(s, c)
unfoldable pub count : Str → ℕ → ℕ
count [] c = 0
count (x ∷ s) c = (if x == c then 1 else 0) + count s c

-- strings.Contains(s, "]:")
unfoldable pub contains_close : Str → Bool
contains_close [] = false
contains_close (x ∷ s) = let rest = contains_close s in has_prefix (x ∷ s) (codes "]:") || rest

-- what precedes the last `c` and what follows it
unfoldable pub cut_last : Str → ℕ → Option (Str × Str)
cut_last [] c = none
cut_last (x ∷ s) c = elim (cut_last s c) [
  | some (a, b) ↦ some (x ∷ a, b)
  | none ↦ if x == c then some ([], s) else none
]

-- what precedes the first `c` and what follows it
unfoldable pub cut_first : Str → ℕ → Option (Str × Str)
cut_first [] c = none
cut_first (x ∷ s) c =
    let rest = cut_first s c in
    if x == c then some ([], s) else elim rest [ some (a, b) ↦ some (x ∷ a, b) | none ↦ none ]

-- what follows the bracket of a host
after_bracket : Str → Str → Str → Option (Str × Str)
after_bracket t host [] = none
after_bracket t host (c ∷ port) =
    if c == b':' && not (contains port b':') && not (contains t b'[') && not (contains port b']')
    then some (host, port)
    else none

unfoldable pub split_brackets : Str → Option (Str × Str)
unfolding after_bracket
split_brackets t = elim (cut_first t b']') [
  | none ↦ none
  | some (host, after) ↦ after_bracket t host after
]

unfoldable pub plain_parts : Str → Option (Str × Str) → Option (Str × Str)
plain_parts s none = none
plain_parts s (some (host, port)) =
    if contains host b':' || contains s b'[' || contains s b']' then none else some (host, port)

unfoldable pub split_plain : Str → Option (Str × Str)
unfolding plain_parts
split_plain s = plain_parts s (cut_last s b':')

-- net.SplitHostPort, `none` being an error
unfoldable pub split_host_port : Str → Option (Str × Str)
unfolding split_brackets split_plain
split_host_port [] = none
split_host_port (x ∷ s) = if x == b'[' then split_brackets s else split_plain (x ∷ s)

-- net.JoinHostPort
unfoldable pub join_host_port : Str → Str → Str
join_host_port host port =
    if contains host b':' then b'[' ∷ host ++ codes "]:" ++ port else host ++ b':' ∷ port

-- `portMap[scheme]`
unfoldable pub port_of : Str → Str
port_of scheme =
    if str_eq scheme (codes "http")
    then codes "80"
    else if str_eq scheme (codes "https")
    then codes "443"
    else []

-- the address of a host with a port, which may be empty
unfoldable pub with_port : Str → Str → Option (Str × Str) → Str
with_port host scheme none = host
with_port host scheme (some (hostname, port)) =
    join_host_port hostname (if is_empty port then port_of scheme else port)

-- canonicalAddress
unfoldable pub canonical_address : Str → Str → Str
unfolding with_port
canonical_address host scheme =
    if count host b':' == 1 || leb 2 (count host b':') && contains_close host
    then with_port host scheme (split_host_port host)
    else join_host_port host (port_of scheme)

-- matchesHost, of the registry's name, the Host of the request and the host of its URL
unfoldable pub matches_host : Str → Str → Str → Str → Bool
matches_host registry host url_host scheme =
    str_eq (canonical_address host scheme) (canonical_address registry scheme)
    || str_eq (canonical_address url_host scheme) (canonical_address registry scheme)
