-- ===== src/Hash/Examples.antt =====
-- The hash of the text that `SHA256` would return for a toy sum.
use go_containerregistry.Prelude.{ℕ, ◌≡◌, ◌↔◌, ◌%◌, refl, List, [], ◌∷◌, length, codes, ok}
use go_containerregistry.Hash.{
  Hash, HashError, hash_string, new_hash, sha256, sha256_name, hex_encode,
}
use go_containerregistry.Hash.RoundTrip.{IsHash, new_hash_iff, sha256-new_hash}

-- 32 bytes, the first of which is the number of bytes summed up
abbrev toy_sum : List ℕ → List ℕ
toy_sum content =
    length content % 256
    ∷ 1
    ∷ 2
    ∷ 3
    ∷ 4
    ∷ 5
    ∷ 6
    ∷ 7
    ∷ 8
    ∷ 9
    ∷ 10
    ∷ 11
    ∷ 12
    ∷ 13
    ∷ 14
    ∷ 15
    ∷ 16
    ∷ 17
    ∷ 18
    ∷ 19
    ∷ 20
    ∷ 21
    ∷ 22
    ∷ 23
    ∷ 24
    ∷ 25
    ∷ 26
    ∷ 27
    ∷ 28
    ∷ 29
    ∷ 30
    ∷ 31
    ∷ []

abbrev toy_hash : Hash
toy_hash = record { algorithm = sha256_name; hex = hex_encode (toy_sum (7 ∷ 8 ∷ 9 ∷ [])) }

sha256-new_hash_example : (new_hash (hash_string toy_hash) ≡ ok toy_hash) × (◌≡◌ {A = ℕ} 3 3)
unfolding sha256
sha256-new_hash_example =
    sha256-new_hash {E = HashError} toy_sum (7 ∷ 8 ∷ 9 ∷ []) (ok (7 ∷ 8 ∷ 9 ∷ [])) toy_hash 3
      (λ c. refl) refl refl

new_hash_iff_example :
    (new_hash (codes "sha256:00") ≡ ok toy_hash)
    ↔ ((codes "sha256:00" ≡ hash_string toy_hash) × IsHash toy_hash)
new_hash_iff_example = new_hash_iff (codes "sha256:00") toy_hash
