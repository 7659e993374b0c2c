-- ===== src/Name/Scheme.antt =====
-- Registry.Scheme of pkg/name/registry.go: which registries are reached over plain HTTP. The
-- regular expressions and the address tests are written out as the matches that they stand for.
use mathlib.Core.List.{foldl}
use go_containerregistry.Prelude.{
  ℕ, zero, suc, ◌+◌, ◌-◌, ◌*◌, Bool, true, false, ◌&&◌, ◌||◌, not, List, [], ◌∷◌, Option, none,
  some, Str, codes, is_empty, has_prefix, split, length, all, leb, ◌==◌, if◌then◌else◌,
}
use go_containerregistry.Name.Registry.{Registry, registry_name, is_digit}

-- a match of `p` at some place of the string
matches_somewhere : (Str → Bool) → Str → Bool
matches_somewhere p [] = p []
matches_somewhere p (c ∷ s) = p (c ∷ s) || matches_somewhere p s

drop : ℕ → Str → Str
drop zero s = s
drop (suc n) [] = []
drop (suc n) (c ∷ s) = drop n s

-- `(?::\d{1,5})?$`
port_end : Str → Bool
port_end [] = true
port_end (c ∷ s) = c == b':' && all is_digit s && leb 1 (length s) && leb (length s) 5

-- `\.local(?:host)?(?::\d{1,5})?$`
local_end : Str → Bool
unfolding port_end drop
local_end s =
    has_prefix s (codes ".local")
    && (port_end (drop 6 s) || (has_prefix (drop 6 s) (codes "host") && port_end (drop 10 s)))

-- one decimal part of an IPv4 address
octet : Str → Option ℕ
octet s =
    let n = foldl (λ n c. n * 10 + (c - b'0')) 0 s in
    if not (is_empty s) && all is_digit s && leb n 255 then some n else none

-- the blocks 10.0.0.0/8, 172.16.0.0/12 and 192.168.0.0/16
private_block : ℕ → ℕ → Bool
private_block a b = a == 10 || (a == 172 && leb 16 b && leb b 31) || (a == 192 && b == 168)

private_octets : Option ℕ → Option ℕ → Option ℕ → Option ℕ → Bool
unfolding private_block
private_octets (some a) (some b) (some c) (some d) = private_block a b
private_octets _ _ _ _ = false

private_address : List Str → Bool
unfolding private_octets octet
private_address (a ∷ b ∷ c ∷ d ∷ []) = private_octets (octet a) (octet b) (octet c) (octet d)
private_address _ = false

first_part : List Str → Str
first_part [] = []
first_part (p ∷ _) = p

unfoldable pub is_rfc1918 : Registry → Bool
unfolding private_address first_part registry_name
is_rfc1918 r = private_address (split (first_part (split (registry_name r) b':')) b'.')

unfoldable pub scheme : Registry → Str
unfolding is_rfc1918 matches_somewhere local_end registry_name
scheme r =
    if r.insecure
    then codes "http"
    else if is_rfc1918 r
    then codes "http"
    else if has_prefix (registry_name r) (codes "localhost:")
    then codes "http"
    else if matches_somewhere local_end (registry_name r)
    then codes "http"
    else if matches_somewhere (λ s. has_prefix s (codes "127.0.0.1")) (registry_name r)
    then codes "http"
    else if matches_somewhere (λ s. has_prefix s (codes "::1")) (registry_name r)
    then codes "http"
    else codes "https"
