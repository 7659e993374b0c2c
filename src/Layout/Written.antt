-- ===== src/Layout/Written.antt =====
-- WriteImage of pkg/v1/layout/write.go.
use go_containerregistry.Prelude.{
  ℕ, ◌≡◌, ap, subst, List, [], ◌∷◌, Option, some, Str, All, Result, ok,
}
use go_containerregistry.Hash.{Hash}
use go_containerregistry.Partial.Objects.{Fault, Layer}
use go_containerregistry.Layout.Files.{
  Disk, method_result, Image, whole, write_blob, write_layers, write_image,
}
use go_containerregistry.Layout.Kept.{
  IsKept, IsThere, HasBlob, HasBlob-kept, method_result-ok, write_blob-Writes, write_image-IsKept,
  write_layers-HaveBlobs,
}
use go_containerregistry.Remote.Act.{continue-ok}

module _ (denied : Str → Option Str) where
  -- The blobs of an image: its layers, its config file and its manifest.
  pub record IsWritten (img : Image) (d : Disk) : Type 0 where
    pub ls : List Layer
    pub layers_eq : img.layers ≡ ok ls
    pub layers : All (λ l. HasBlob denied d l.digest) ls
    pub config : HasBlob denied d img.config_name
    pub manifest : HasBlob denied d img.digest

  same-IsKept : (d d' : Disk) → d ≡ d' → IsKept d d'
  same-IsKept d d' e p b h = subst (λ x. x p ≡ some b) e h

  blob-HasBlob :
      (digest : Result Fault Hash) (h : Hash) (bytes : List ℕ) (v d' : Disk)
      → digest ≡ ok h
      → write_blob denied h (whole bytes) v ≡ (ok tt, d')
      → IsKept v d' × HasBlob denied d' digest
  blob-HasBlob digest h bytes v d' e w =
      let (k, t) = write_blob-Writes denied h (whole bytes) v in
      (
        subst (IsKept v) (ap (λ x. x.1) w) k,
        (h, e, subst (λ x. IsThere x h) (ap (λ x. x.1) w) (t (ap (λ x. x.0) w))),
      )

  written : (img : Image) (d d' : Disk) → write_image denied img d ≡ (ok tt, d') → IsWritten img d'
  unfolding write_image
  written img d d' h =
      let (ls, v1, e1, h1) = continue-ok (method_result img.layers, d) _ d' tt h in
      let (u2, v2, e2, h2) = continue-ok (write_layers denied ls v1) _ d' tt h1 in
      let (name, v3, e3, h3) = continue-ok (method_result img.config_name, v2) _ d' tt h2 in
      let (config, v4, e4, h4) = continue-ok (method_result img.raw_config_file, v3) _ d' tt h3 in
      let (u5, v5, e5, h5) = continue-ok (write_blob denied name (whole config) v4) _ d' tt h4 in
      let (hash, v6, e6, h6) = continue-ok (method_result img.digest, v5) _ d' tt h5 in
      let (m, v7, e7, h7) = continue-ok (method_result img.raw_manifest, v6) _ d' tt h6 in
      let (k5, b5) =
        blob-HasBlob img.config_name name config v4 v5
          (method_result-ok denied img.config_name name v2 v3 e3) e5 in
      let (k7, b7) =
        blob-HasBlob img.digest hash m v7 d' (method_result-ok denied img.digest hash v5 v6 e6)
          h7 in
      let k57 : IsKept v5 d' = λ p b q.
        k7 p b
          (same-IsKept v6 v7 (ap (λ x. x.1) e7) p b (same-IsKept v5 v6 (ap (λ x. x.1) e6) p b q)) in
      let k27 : IsKept v2 d' = λ p b q. k57 p b (
        k5 p b (
          same-IsKept v3 v4 (ap (λ x. x.1) e4) p b (same-IsKept v2 v3 (ap (λ x. x.1) e3) p b q))) in
      record {
        ls = ls;
        layers_eq = method_result-ok denied img.layers ls d v1 e1;
        layers = all_kept ls v2 d' k27 (
            subst (λ x. All (λ l. HasBlob denied x l.digest) ls) (ap (λ x. x.1) e2)
              (write_layers-HaveBlobs denied ls v1 (ap (λ x. x.0) e2)));
        config = HasBlob-kept denied v5 d' img.config_name k57 b5;
        manifest = b7;
      }
    where
      all_kept :
          (ls : List Layer) (v w : Disk)
          → IsKept v w
          → All (λ l. HasBlob denied v l.digest) ls
          → All (λ l. HasBlob denied w l.digest) ls
      all_kept [] v w k a = tt
      all_kept (l ∷ ls) v w k a = (HasBlob-kept denied v w l.digest k a.0, all_kept ls v w k a.1)

  -- WriteImage leaves every file that is there as it is, whether it returns an error or not, and
  -- where it returns none there is a blob for each layer, for the config file and for the manifest.
  pub write_image-IsWritten :
      (img : Image) (d : Disk)
      → IsKept d (write_image denied img d).1
        × ((write_image denied img d).0 ≡ ok tt → IsWritten img (write_image denied img d).1)
  write_image-IsWritten img d = (
    write_image-IsKept denied img d,
    λ e. written img d (write_image denied img d).1 (ap (λ x. (x, (write_image denied img d).1)) e),
  )
