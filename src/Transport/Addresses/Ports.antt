-- ===== src/Transport/Addresses/Ports.antt =====
-- Hosts with and without the port of the scheme in pkg/v1/remote/transport/bearer.go.
use go_containerregistry.Prelude.{
  ℕ, ◌+◌, ◌≡◌, ◌⊎◌, inl, inr, refl, sym, ap, subst, ◌∙◌, false, ◌||◌, [], ◌∷◌, ◌++◌, none, some,
  Str, codes, contains, is_empty, str_eq, Bool-cases, ◌==◌, if◌then◌else◌, arith,
}
use go_containerregistry.Transport.Addresses.{
  count, cut_last, plain_parts, with_port, split_plain, split_host_port, join_host_port, port_of,
  canonical_address,
}

-- A text with no colon and no bracket.
pub record IsBare (s : Str) : Type 0 where
  pub no_colon : contains s b':' ≡ false
  pub no_open : contains s b'[' ≡ false
  pub no_close : contains s b']' ≡ false

contains-append : (s t : Str) (c : ℕ) → contains (s ++ t) c ≡ contains s c || contains t c
unfolding contains
contains-append [] t c = refl
contains-append (x ∷ s) t c = ground (arith, contains-append s t c)

count-lacks : (s : Str) (c : ℕ) → contains s c ≡ false → count s c ≡ 0
unfolding contains count
count-lacks [] c h = refl
count-lacks (x ∷ s) c h = ground (arith, count-lacks s c)

count-append : (s t : Str) (c : ℕ) → count (s ++ t) c ≡ count s c + count t c
unfolding count
count-append [] t c = omega arith
count-append (x ∷ s) t c = ground (arith, count-append s t c)

cut_last-lacks : (s : Str) (c : ℕ) → contains s c ≡ false → cut_last s c ≡ none
unfolding contains cut_last
cut_last-lacks [] c h = refl
cut_last-lacks (x ∷ s) c h = ground (arith, cut_last-lacks s c)

cut_last-append :
    (host port : Str)
    → contains port b':' ≡ false
    → cut_last (host ++ b':' ∷ port) b':' ≡ some (host, port)
unfolding cut_last
cut_last-append [] port h = rw (cut_last-lacks port b':' h) refl
cut_last-append (x ∷ host) port h = rw (cut_last-append host port h) refl

port_of-IsBare : (scheme : Str) → IsBare (port_of scheme)
unfolding port_of contains
port_of-IsBare scheme = elim (Bool-cases (str_eq scheme (codes "http"))) [
  | inl h ↦ rw h (record { no_colon = refl; no_open = refl; no_close = refl })
  | inr h ↦ elim (Bool-cases (str_eq scheme (codes "https"))) [
    | inl k ↦ rw (h, k) (record { no_colon = refl; no_open = refl; no_close = refl })
    | inr k ↦ rw (h, k) (record { no_colon = refl; no_open = refl; no_close = refl })
  ]
]

split_plain-port :
    (host port : Str)
    → IsBare host
    → IsBare port
    → split_plain (host ++ b':' ∷ port) ≡ some (host, port)
unfolding split_plain plain_parts contains
split_plain-port host port h p =
    ap (plain_parts (host ++ b':' ∷ port)) (cut_last-append host port p.no_colon)
    ∙ rw
        (
          contains-append host (b':' ∷ port) b'[',
          contains-append host (b':' ∷ port) b']',
          h.no_colon,
          h.no_open,
          h.no_close,
          p.no_open,
          p.no_close,
        )
        refl

split_host_port-port :
    (host port : Str)
    → IsBare host
    → IsBare port
    → split_host_port (host ++ b':' ∷ port) ≡ some (host, port)
unfolding split_host_port contains
split_host_port-port [] port h p = split_plain-port [] port h p
split_host_port-port (x ∷ host) port h p =
    let o = h.no_open in
    let n : (x == b'[') ≡ false = ground arith in rw n (split_plain-port (x ∷ host) port h p)

count_of_port : (host port : Str) → IsBare host → IsBare port → count (host ++ b':' ∷ port) b':' ≡ 1
unfolding count
count_of_port host port h p =
    rw
      (
        count-append host (b':' ∷ port) b':',
        count-lacks host b':' h.no_colon,
        count-lacks port b':' p.no_colon,
      )
      refl

port-IsBare : (port scheme : Str) → (port ≡ []) ⊎ (port ≡ port_of scheme) → IsBare port
unfolding contains
port-IsBare port scheme (inl e) =
    subst IsBare (sym e) (record { no_colon = refl; no_open = refl; no_close = refl })
port-IsBare port scheme (inr e) = subst IsBare (sym e) (port_of-IsBare scheme)

same_port : (port : Str) → (if is_empty port then port else port) ≡ port
same_port [] = refl
same_port (c ∷ port) = refl

chosen_port :
    (port scheme : Str)
    → (port ≡ []) ⊎ (port ≡ port_of scheme)
    → (if is_empty port then port_of scheme else port) ≡ port_of scheme
chosen_port port scheme (inl e) = rw e refl
chosen_port port scheme (inr e) = rw e (same_port (port_of scheme))

-- A host with no colon and no bracket has the canonical address that it has with a colon behind it,
-- and with the port of the scheme.
pub canonical_address-port :
    (host port scheme : Str)
    → IsBare host
    → (port ≡ []) ⊎ (port ≡ port_of scheme)
    → canonical_address (host ++ b':' ∷ port) scheme ≡ canonical_address host scheme
unfolding canonical_address with_port contains
canonical_address-port host port scheme h e =
    let p = port-IsBare port scheme e in
    rw
      (
        count_of_port host port h p,
        count-lacks host b':' h.no_colon,
        split_host_port-port host port h p,
      )
      (ap (join_host_port host) (chosen_port port scheme e))
