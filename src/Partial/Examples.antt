-- ===== src/Partial/Examples.antt =====
-- Two layers, and the diff ID of the second.
use go_containerregistry.Prelude.{
  ◌≡◌, refl, ap, true, false, [], ◌∷◌, none, Str, codes, Result, ok, str_eq,
}
use go_containerregistry.Hash.{Hash}
use go_containerregistry.Platform.Descriptors.{Descriptor, hash_eq}
use go_containerregistry.Partial.Objects.{Fault, ConfigFile, Manifest}
use go_containerregistry.Partial.With.{
  fs_layers, diff_ids, at_index_of, found_or, blob_to_diff_id, diff_id_to_blob,
}
use go_containerregistry.Partial.Lookup.{diff_id_to_blob-blob_to_diff_id}

abbrev hash_named : Str → Hash
hash_named name = record { algorithm = codes "sha256"; hex = name }

abbrev descriptor_named : Str → Descriptor
descriptor_named name = record {
  media_type = codes "application/vnd.docker.image.rootfs.diff.tar.gzip";
  size = 3;
  digest = hash_named name;
  urls = [];
  annotations = [];
  platform = none;
}

abbrev two_blobs : Result Fault Manifest
two_blobs = ok (record {
  schema_version = 2;
  media_type = codes "application/vnd.docker.distribution.manifest.v2+json";
  config = descriptor_named (codes "c");
  layers = descriptor_named (codes "a") ∷ descriptor_named (codes "b") ∷ [];
  annotations = [];
})

abbrev two_ids : ConfigFile
two_ids = record {
  architecture = codes "amd64";
  author = [];
  container = [];
  created = [];
  docker_version = [];
  history = [];
  os = codes "linux";
  diff_ids = hash_named (codes "1") ∷ hash_named (codes "2") ∷ [];
  config = record { hostname = []; rest = [] };
  os_version = [];
}

diff_id_to_blob-blob_to_diff_id_example :
    diff_id_to_blob two_blobs (ok two_ids) (hash_named (codes "2")) ≡ ok (hash_named (codes "b"))
unfolding blob_to_diff_id fs_layers diff_ids found_or at_index_of hash_eq str_eq
diff_id_to_blob-blob_to_diff_id_example =
    diff_id_to_blob-blob_to_diff_id two_blobs two_ids (hash_named (codes "b"))
      (hash_named (codes "2"))
      (
        ((λ e. let q : true ≡ false = ap (λ (h : Hash). str_eq h.hex (codes "1")) e in cc), tt),
        (tt, tt),
      )
      refl
