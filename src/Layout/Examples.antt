-- ===== src/Layout/Examples.antt =====
-- An image of one layer written to an empty disk.
use go_containerregistry.Prelude.{
  ◌≡◌, refl, [], ◌∷◌, Option, none, some, Str, codes, ok, err, empty_map, put,
}
use go_containerregistry.Hash.{Hash}
use go_containerregistry.Partial.Objects.{Layer, method_failed}
use go_containerregistry.Layout.Files.{
  Disk, method_error, whole, blob_path, Image, write_blob, write_image,
}
use go_containerregistry.Layout.Kept.{IsKept}
use go_containerregistry.Layout.Written.{IsWritten, write_image-IsWritten}
use go_containerregistry.Layout.Torn.{write_blob-torn}

abbrev hash_named : Str → Hash
hash_named name = record { algorithm = codes "sha256"; hex = name }

abbrev one_layer : Layer
one_layer = record {
  digest = ok (hash_named (codes "a"));
  diff_id = ok (hash_named (codes "b"));
  compressed = ok (1 ∷ 2 ∷ []);
  uncompressed = ok (3 ∷ []);
  size = ok 2;
  media_type = ok (codes "application/vnd.oci.image.layer.v1.tar+gzip");
  own_descriptor = none;
}

abbrev one_layer_image : Image
one_layer_image = record {
  layers = ok (one_layer ∷ []);
  config_name = ok (hash_named (codes "c"));
  raw_config_file = ok (4 ∷ []);
  media_type = ok (codes "application/vnd.oci.image.manifest.v1+json");
  digest = ok (hash_named (codes "d"));
  raw_manifest = ok (5 ∷ []);
}

abbrev no_denial : Str → Option Str
no_denial path = none

abbrev blank : Disk
blank = empty_map

write_image-IsWritten_example :
    IsKept blank (write_image no_denial one_layer_image blank).1
    × ((write_image no_denial one_layer_image blank).0 ≡ ok tt
        → IsWritten no_denial one_layer_image (write_image no_denial one_layer_image blank).1)
write_image-IsWritten_example = write_image-IsWritten no_denial one_layer_image blank

abbrev after_one_byte : Disk
after_one_byte = put blank (blob_path (hash_named (codes "a"))) (1 ∷ [])

write_blob-torn_example :
    (write_blob no_denial
        (hash_named (codes "a"))
        (record { bytes = 1 ∷ []; failure = some (method_failed (codes "reset")) })
        blank
      ≡ (err (method_error (method_failed (codes "reset"))), after_one_byte))
    × (write_blob no_denial (hash_named (codes "a")) (whole (1 ∷ 2 ∷ [])) after_one_byte
        ≡ (ok tt, after_one_byte))
    × (after_one_byte (blob_path (hash_named (codes "a"))) ≡ some (1 ∷ []))
write_blob-torn_example =
    write_blob-torn no_denial (hash_named (codes "a")) (1 ∷ []) (method_failed (codes "reset"))
      (whole (1 ∷ 2 ∷ [])) blank refl refl refl
