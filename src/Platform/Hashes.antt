-- ===== src/Platform/Hashes.antt =====
-- The comparison of hashes with `==`, and lookups in a map with hashes as its keys.
use go_containerregistry.Prelude.{
  ◌≡◌, ◌↔◌, true, List, [], ◌∷◌, Option, none, some, str_eq→eq, str_eq_refl, arith, if◌then◌else◌,
}
use go_containerregistry.Hash.{Hash}
use go_containerregistry.Platform.Descriptors.{hash_eq}

pub hash_eq→eq : (a b : Hash) → hash_eq a b ≡ true → a ≡ b
unfolding hash_eq
hash_eq→eq a b h = ground (arith, str_eq→eq a.algorithm b.algorithm, str_eq→eq a.hex b.hex)

pub hash_eq_refl : (a : Hash) → hash_eq a a ≡ true
unfolding hash_eq
hash_eq_refl a = rw (str_eq_refl, str_eq_refl)

pub hash_eq_iff : (a b : Hash) → (hash_eq a b ≡ true) ↔ (a ≡ b)
hash_eq_iff a b = (hash_eq→eq a b, λ e. rw e (hash_eq_refl b))

-- `map[v1.Hash]V` as the list of its settings, the last one first
abbrev pub HashMap {ℓ} : Type ℓ → Type ℓ
HashMap V = List (Hash × V)

abbrev pub find {ℓ} : {V : Type ℓ} → HashMap V → Hash → Option V
find [] h = none
find ((k, v) ∷ m) h = let rest = find m h in if hash_eq k h then some v else rest
