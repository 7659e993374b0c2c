-- ===== src/Cache/Examples.antt =====
-- A layer that is in the cache under its diff ID only.
use go_containerregistry.Prelude.{
  ◌+◌, ◌≡◌, refl, [], ◌∷◌, none, Str, codes, str_eq, ok, err, if◌then◌else◌,
}
use go_containerregistry.Hash.{Hash}
use go_containerregistry.Platform.Descriptors.{hash_eq}
use go_containerregistry.Partial.Objects.{Layer}
use go_containerregistry.Cache.Images.{
  Cache, not_found, put_behind, by_diff_id, look_up_diff_id, by_digest, look_up_digest, round,
  in_front, then_rest, cached_layers,
}
use go_containerregistry.Cache.Counted.{uncompressed_hits, cached_layers-length}

abbrev hash_named : Str → Hash
hash_named name = record { algorithm = codes "sha256"; hex = name }

abbrev plain_layer : Layer
plain_layer = record {
  digest = ok (hash_named (codes "z"));
  diff_id = ok (hash_named (codes "d"));
  compressed = ok (1 ∷ []);
  uncompressed = ok (2 ∷ []);
  size = ok 1;
  media_type = ok (codes "application/vnd.docker.image.rootfs.diff.tar.gzip");
  own_descriptor = none;
}

-- the state is the diff ID that is in the cache
abbrev one_file : Cache Hash
one_file = record {
  put = λ l s. (ok l, s);
  get = λ h s. (if hash_eq h s then ok plain_layer else err not_found, s);
}

cached_layers-length_example :
    2 ≡ 1 + uncompressed_hits one_file (plain_layer ∷ []) (hash_named (codes "d"))
unfolding cached_layers round then_rest in_front look_up_digest by_digest look_up_diff_id by_diff_id
    put_behind hash_eq str_eq
cached_layers-length_example =
    cached_layers-length one_file (plain_layer ∷ []) (plain_layer ∷ plain_layer ∷ [])
      (hash_named (codes "d")) refl
