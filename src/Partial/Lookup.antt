-- ===== src/Partial/Lookup.antt =====
-- Looking up a diff ID by a blob, and the blob by the diff ID.
use go_containerregistry.Prelude.{
  ◌≡◌, ◌≢◌, refl, sym, subst, false, List, [], ◌∷◌, map, Option, none, some, some_injective, All,
  length, Bool-cases, inl, inr, ◌==◌, Result, ok, err, err-ne-ok,
}
use go_containerregistry.Hash.{Hash}
use go_containerregistry.Platform.Descriptors.{Descriptor, hash_eq}
use go_containerregistry.Platform.Hashes.{hash_eq→eq, hash_eq_refl}
use go_containerregistry.Partial.Objects.{Fault, ConfigFile, Manifest}
use go_containerregistry.Partial.With.{
  fs_layers, diff_ids, at_index_of, found_or, blob_to_diff_id, diff_id_to_blob,
}

-- No hash stands twice in the list.
abbrev pub AreDistinct : List Hash → Type 0
AreDistinct [] = Unit
AreDistinct (x ∷ xs) = All (λ y. x ≢ y) xs × AreDistinct xs

hash_eq-false : (x y : Hash) → x ≢ y → hash_eq x y ≡ false
hash_eq-false x y n = elim (Bool-cases (hash_eq x y)) [
  | inl e ↦ absurd (n (hash_eq→eq x y e))
  | inr e ↦ e
]

-- what is found stands in the second list
found-All :
    (P : Hash → Type 0) (xs ys : List Hash) (h d : Hash)
    → All P ys
    → at_index_of xs ys h ≡ some d
    → P d
unfolding at_index_of
found-All P [] ys h d a e = cc
found-All P (x ∷ xs) [] h d a e = cc
found-All P (x ∷ xs) (y ∷ ys) h d a e = elim (Bool-cases (hash_eq x h)) [
  | inl c ↦ subst (λ z. P z) (some_injective (rw c at e)) a.0
  | inr c ↦ found-All P xs ys h d a.1 (rw c at e)
]

at_index_of-back :
    (blobs ids : List Hash) (h d : Hash)
    → AreDistinct ids
    → at_index_of blobs ids h ≡ some d
    → at_index_of ids blobs d ≡ some h
unfolding at_index_of
at_index_of-back [] ids h d a e = cc
at_index_of-back (x ∷ xs) [] h d a e = cc
at_index_of-back (x ∷ xs) (y ∷ ys) h d a e = elim (Bool-cases (hash_eq x h)) [
  | inl c ↦
      let same : y ≡ d = some_injective (rw c at e) in
      rw (sym same, hash_eq_refl y, hash_eq→eq x h c)
  | inr c ↦
      let later : at_index_of xs ys h ≡ some d = rw c at e in
      let other : hash_eq y d ≡ false =
        hash_eq-false y d (found-All (λ z. y ≢ z) xs ys h d a.0 later) in
      rw other (at_index_of-back xs ys h d a.1 later)
]

found_or-ok : (e : Fault) (o : Option Hash) (d : Hash) → found_or e o ≡ ok d → o ≡ some d
unfolding found_or
found_or-ok e none d h = cc
found_or-ok e (some a) d h = cc

-- Where no diff ID stands twice in the config file, a diff ID that is returned for a blob leads back
-- to the blob.
pub diff_id_to_blob-blob_to_diff_id :
    (manifest : Result Fault Manifest) (cfg : ConfigFile) (h d : Hash)
    → AreDistinct cfg.diff_ids
    → blob_to_diff_id manifest (ok cfg) h ≡ ok d
    → diff_id_to_blob manifest (ok cfg) d ≡ ok h
unfolding blob_to_diff_id diff_id_to_blob fs_layers diff_ids found_or
diff_id_to_blob-blob_to_diff_id (err e) cfg h d a q = cc
diff_id_to_blob-blob_to_diff_id (ok m) cfg h d a q =
    elim (Bool-cases
      (length (map (λ (l : Descriptor). l.digest) m.layers) == length cfg.diff_ids)) [
        | inr c ↦ absurd (err-ne-ok (rw c at q))
        | inl c ↦
            let found = found_or-ok _ _ d (rw c at q) in
            rw
              (
                c,
                at_index_of-back (map (λ (l : Descriptor). l.digest) m.layers) cfg.diff_ids h d a
                    found,
              )
              refl
      ]
