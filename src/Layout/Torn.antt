-- ===== src/Layout/Torn.antt =====
-- A blob whose reader fails in WriteBlob of pkg/v1/layout/write.go.
use go_containerregistry.Prelude.{
  ℕ, ◌≡◌, refl, List, [], ◌∷◌, Option, none, some, Str, codes, str_eq_refl, ok, err, put,
}
use go_containerregistry.Hash.{Hash}
use go_containerregistry.Server.Paths.{path_join}
use go_containerregistry.Partial.Objects.{Fault}
use go_containerregistry.Layout.Files.{
  Disk, method_error, Reader, blob_path, copy_result, create_blob, unless_there, in_directory,
  write_blob,
}

module _ (denied : Str → Option Str) where
  -- Where the directory and the file can be made and the blob is not there: if the reader fails, so
  -- does WriteBlob, and every later WriteBlob of that hash returns no error and leaves on disk what
  -- the reader gave before it failed, and nothing else.
  pub write_blob-torn :
      (h : Hash) (bytes : List ℕ) (e : Fault) (r : Reader) (d : Disk)
      → denied (path_join (codes "blobs" ∷ h.algorithm ∷ [])) ≡ none
      → denied (blob_path h) ≡ none
      → d (blob_path h) ≡ none
      → let torn = put d (blob_path h) bytes in
        (write_blob denied h (record { bytes = bytes; failure = some e }) d
          ≡ (err (method_error e), torn))
        × (write_blob denied h r torn ≡ (ok tt, torn))
        × (torn (blob_path h) ≡ some bytes)
  unfolding write_blob in_directory unless_there create_blob copy_result
  write_blob-torn h bytes e r d a b n = (
    rw (a, n, b) refl,
    rw (a, str_eq_refl (blob_path h)) refl,
    rw (str_eq_refl (blob_path h)) refl,
  )
