-- ===== src/Layout/Kept.antt =====
-- What pkg/v1/layout/write.go leaves of the files that are there, and which blobs it leaves behind.
use go_containerregistry.Prelude.{
  ℕ, ◌≡◌, refl, sym, ap, subst, ◌∙◌, List, [], ◌∷◌, Option, none, some, Str, codes, str_eq,
  str_eq→eq, str_eq_refl, Bool-cases, inl, inr, Result, ok, err, ok_injective, err-ne-ok, put, All,
}
use go_containerregistry.Hash.{Hash}
use go_containerregistry.Server.Paths.{path_join}
use go_containerregistry.Partial.Objects.{Fault, Layer}
use go_containerregistry.Layout.Files.{
  Disk, LayoutError, Reader, blob_path, method_result, Image, first_error, create_blob,
  unless_there, in_directory, write_blob, whole, write_layer, write_layers, write_image,
}
use go_containerregistry.Remote.Act.{Act, continue, continue-ok}

-- Every file of the first disk is on the second, with the same bytes.
abbrev pub IsKept : Disk → Disk → Type 0
IsKept d d' = (p : Str) (bytes : List ℕ) → d p ≡ some bytes → d' p ≡ some bytes

abbrev pub IsThere : Disk → Hash → Type 0
IsThere d h = (bytes : List ℕ) × (d (blob_path h) ≡ some bytes)

put-IsKept : (d : Disk) (p : Str) (bytes : List ℕ) → d p ≡ none → IsKept d (put d p bytes)
put-IsKept d p bytes n q b h = elim (Bool-cases (str_eq p q)) [
  | inr e ↦ rw e h
  | inl e ↦ absurd (none_some (sym n ∙ ap d (str_eq→eq p q e) ∙ h))
]
  where
    none_some : ◌≡◌ {A = Option (List ℕ)} none (some b) → ⊥
    none_some k = cc

module _ (denied : Str → Option Str) where
  -- A call that keeps the files, and leaves the blob there if it returns no error.
  abbrev Writes : Hash → Disk → Result LayoutError Unit × Disk → Type 0
  Writes h d o = IsKept d o.1 × (o.0 ≡ ok tt → IsThere o.1 h)

  create_blob-Writes :
      (h : Hash) (r : Reader) (e : Option Str) (d : Disk)
      → d (blob_path h) ≡ none
      → Writes h d (create_blob denied (blob_path h) r e d)
  unfolding create_blob
  create_blob-Writes h r (some e) d n = ((λ p b k. k), λ k. absurd (err-ne-ok k))
  create_blob-Writes h r none d n =
      (put-IsKept d (blob_path h) r.bytes n, λ k. (r.bytes, rw (str_eq_refl (blob_path h)) refl))

  pub write_blob-Writes : (h : Hash) (r : Reader) (d : Disk) → Writes h d (write_blob denied h r d)
  unfolding write_blob in_directory unless_there
  write_blob-Writes h r d =
      in_directory-Writes (denied (path_join (codes "blobs" ∷ h.algorithm ∷ [])))
    where
      unless_there-Writes :
          (o : Option (List ℕ))
          → d (blob_path h) ≡ o
          → Writes h d (unless_there denied (blob_path h) r o d)
      unless_there-Writes (some b) e = ((λ p c k. k), λ k. (b, e))
      unless_there-Writes none e = create_blob-Writes h r (denied (blob_path h)) d e

      in_directory-Writes : (o : Option Str) → Writes h d (in_directory denied (blob_path h) r o d)
      in_directory-Writes (some e) = ((λ p b k. k), λ k. absurd (err-ne-ok k))
      in_directory-Writes none = unless_there-Writes (d (blob_path h)) refl

  continue-IsKept :
      {A B : Type 0} (d : Disk) (r : Result LayoutError A × Disk) (f : A → Act Disk LayoutError B)
      → IsKept d r.1
      → ((a : A) (v : Disk) → IsKept v (f a v).1)
      → IsKept d (continue r f).1
  continue-IsKept d (ok a, v) f k g p b h = g a v p b (k p b h)
  continue-IsKept d (err e, v) f k g p b h = k p b h

  lift-IsKept :
      {A B : Type 0} (r : Result LayoutError A) (f : A → Act Disk LayoutError B) (d : Disk)
      → ((a : A) (v : Disk) → IsKept v (f a v).1)
      → IsKept d (continue (r, d) f).1
  lift-IsKept r f d g = continue-IsKept d (r, d) f (λ p b k. k) g

  write_layer-IsKept : (l : Layer) (d : Disk) → IsKept d (write_layer denied l d).1
  unfolding write_layer
  write_layer-IsKept l d = lift-IsKept (method_result l.digest) _ d (λ h v.
      lift-IsKept (method_result l.compressed) _ v (λ r u. (write_blob-Writes h (whole r) u).0))

  pub write_layers-IsKept : (ls : List Layer) (d : Disk) → IsKept d (write_layers denied ls d).1
  unfolding write_layers
  write_layers-IsKept [] d p b h = h
  write_layers-IsKept (l ∷ ls) d p b h =
      write_layers-IsKept ls (write_layer denied l d).1 p b (write_layer-IsKept l d p b h)

  pub write_image-IsKept : (img : Image) (d : Disk) → IsKept d (write_image denied img d).1
  unfolding write_image
  write_image-IsKept img d = lift-IsKept (method_result img.layers) _ d (λ ls v1.
      continue-IsKept v1 (write_layers denied ls v1) _ (write_layers-IsKept ls v1) (λ u v2.
        lift-IsKept (method_result img.config_name) _ v2 (λ name v3.
          lift-IsKept (method_result img.raw_config_file) _ v3 (λ config v4.
            continue-IsKept v4 (write_blob denied name (whole config) v4) _
              (write_blob-Writes name (whole config) v4).0
              (λ u v5. lift-IsKept (method_result img.digest) _ v5 (λ h v6.
                lift-IsKept (method_result img.raw_manifest) _ v6
                  (λ m v7. (write_blob-Writes h (whole m) v7).0)))))))

  -- the blob of a layer, and of a method that returns its digest
  abbrev pub HasBlob : Disk → Result Fault Hash → Type 0
  HasBlob d digest = (h : Hash) × (digest ≡ ok h) × IsThere d h

  pub HasBlob-kept :
      (d d' : Disk) (digest : Result Fault Hash)
      → IsKept d d'
      → HasBlob d digest
      → HasBlob d' digest
  HasBlob-kept d d' digest k (h, e, (b, t)) = (h, e, (b, k (blob_path h) b t))

  pub method_result-ok :
      {A : Type 0} (r : Result Fault A) (a : A) (v v' : Disk)
      → ◌≡◌ {A = Result LayoutError A × Disk} (method_result r, v) (ok a, v')
      → r ≡ ok a
  unfolding method_result
  method_result-ok (ok x) a v v' h = ap ok (ok_injective (ap (λ q. q.0) h))
  method_result-ok (err e) a v v' h = absurd (err-ne-ok (ap (λ q. q.0) h))

  write_layer-HasBlob :
      (l : Layer) (d : Disk)
      → (write_layer denied l d).0 ≡ ok tt
      → HasBlob (write_layer denied l d).1 l.digest
  unfolding write_layer
  write_layer-HasBlob l d h =
      let (hash, v, e, h1) =
        continue-ok (method_result l.digest, d) _ (write_layer denied l d).1 tt
          (ap (λ x. (x, (write_layer denied l d).1)) h) in
      let (bytes, v', e', h2) =
        continue-ok (method_result l.compressed, v) _ (write_layer denied l d).1 tt h1 in
      let w = (write_blob-Writes hash (whole bytes) v').1 (ap (λ x. x.0) h2) in
      (hash, method_result-ok l.digest hash d v e, subst (λ x. IsThere x hash) (ap (λ x. x.1) h2) w)

  first_error-ok :
      (r s : Result LayoutError Unit) → first_error r s ≡ ok tt → (r ≡ ok tt) × (s ≡ ok tt)
  unfolding first_error
  first_error-ok (ok tt) s h = (refl, h)
  first_error-ok (err e) s h = absurd (err-ne-ok h)

  pub write_layers-HaveBlobs :
      (ls : List Layer) (d : Disk)
      → (write_layers denied ls d).0 ≡ ok tt
      → All (λ l. HasBlob (write_layers denied ls d).1 l.digest) ls
  unfolding write_layers
  write_layers-HaveBlobs [] d h = tt
  write_layers-HaveBlobs (l ∷ ls) d h =
      let (a, b) = first_error-ok _ _ h in
      (
        HasBlob-kept _ _ l.digest (write_layers-IsKept ls (write_layer denied l d).1)
            (write_layer-HasBlob l d a),
        write_layers-HaveBlobs ls (write_layer denied l d).1 b,
      )
