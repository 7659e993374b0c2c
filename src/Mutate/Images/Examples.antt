-- ===== src/Mutate/Images/Examples.antt =====
-- An image of one layer with another appended, and a line of the history that adds none.
use go_containerregistry.Prelude.{
  ℕ, ◌≡◌, refl, sym, ap, false, List, [], ◌∷◌, Option, none, some, Str, codes, str_eq, Result, ok,
  err, ok_injective,
}
use go_containerregistry.Hash.{Hash, sha256}
use go_containerregistry.Platform.Descriptors.{Descriptor, hash_eq}
use go_containerregistry.Partial.Objects.{Fault, unknown_blob, ConfigFile, Layer, Image}
use go_containerregistry.Partial.With.{descriptor}
use go_containerregistry.Mutate.Images.{
  Addendum, Computed, Mutated, compute, compute_unless, grow, with_history, describe, overridden,
  start_config, completed, layers, layers_after, set, layers_by_diff_id, layer_by_diff_id,
  config_file, computing, after_compute,
}
use go_containerregistry.Mutate.Images.Consistent.{IsComputed, compute-IsComputed}
use go_containerregistry.Mutate.Images.Layered.{HaveDiffIds, layers-HaveDiffIds}

abbrev hash_named : Str → Hash
hash_named name = record { algorithm = codes "sha256"; hex = name }

abbrev layer_named : Str → Layer
layer_named name = record {
  digest = ok (hash_named name);
  diff_id = ok (hash_named name);
  compressed = ok name;
  uncompressed = ok name;
  size = ok 3;
  media_type = ok (codes "application/vnd.docker.image.rootfs.diff.tar.gzip");
  own_descriptor = none;
}

abbrev descriptor_named : Str → Descriptor
descriptor_named name = record {
  media_type = codes "application/vnd.docker.image.rootfs.diff.tar.gzip";
  size = 3;
  digest = hash_named name;
  urls = [];
  annotations = [];
  platform = none;
}

abbrev base_config : ConfigFile
base_config = record {
  architecture = codes "amd64";
  author = [];
  container = [];
  created = [];
  docker_version = [];
  history = [];
  os = codes "linux";
  diff_ids = hash_named (codes "a") ∷ [];
  config = record { hostname = []; rest = [] };
  os_version = [];
}

abbrev base_image : Image
base_image = record {
  layers = ok (layer_named (codes "a") ∷ []);
  media_type = ok (codes "application/vnd.docker.distribution.manifest.v2+json");
  config_file = ok base_config;
  manifest = ok (record {
    schema_version = 2;
    media_type = codes "application/vnd.docker.distribution.manifest.v2+json";
    config = descriptor_named (codes "c");
    layers = descriptor_named (codes "a") ∷ [];
    annotations = [];
  });
  layer_by_digest = λ h. err (unknown_blob h);
  layer_by_diff_id = λ h. ok (record (layer_named (codes "a")) { diff_id = ok h });
}

abbrev addendum : Option Layer → Addendum
addendum l = record {
  layer = l;
  history = record { created = []; text = codes "RUN"; empty_layer = false };
  urls = [];
  annotations = [];
  media_type = [];
}

abbrev appended : Mutated
appended = record {
  base = base_image;
  adds = addendum none ∷ addendum (some (layer_named (codes "b"))) ∷ [];
  config_file = none;
  media_type = none;
  computed = none;
}

abbrev same_sum : List ℕ → List ℕ
same_sum bytes = 7 ∷ []

abbrev no_text : ConfigFile → List ℕ
no_text cf = []

abbrev result_of : Result Fault Mutated → Mutated
result_of (ok j) = j
result_of (err e) = appended

abbrev config_after : Result Fault ConfigFile → ConfigFile
config_after (ok cf) = cf
config_after (err e) = base_config

abbrev layers_found : Result Fault (List (Option Layer)) → List (Option Layer)
layers_found (ok ls) = ls
layers_found (err e) = []

compute-IsComputed_example :
    (c : Computed) × ((result_of (compute same_sum no_text appended)).computed ≡ some c)
    × IsComputed same_sum no_text appended c
unfolding compute compute_unless grow with_history describe overridden start_config completed sha256
    descriptor
compute-IsComputed_example =
    compute-IsComputed same_sum no_text appended (result_of (compute same_sum no_text appended))
      refl refl

layers-HaveDiffIds_example :
    HaveDiffIds
      (layers_found (layers same_sum no_text appended).0)
      (config_after (config_file same_sum no_text appended).0).diff_ids
unfolding compute compute_unless grow with_history describe overridden start_config completed sha256
    descriptor layers layers_after config_file computing after_compute set layers_by_diff_id
    layer_by_diff_id hash_eq str_eq
layers-HaveDiffIds_example =
    layers-HaveDiffIds same_sum no_text appended (result_of (compute same_sum no_text appended))
      (layers_found (layers same_sum no_text appended).0)
      (config_after (config_file same_sum no_text appended).0)
      (λ h l e. sym (ap (λ (x : Layer). x.diff_id) (ok_injective e))) refl refl refl refl
