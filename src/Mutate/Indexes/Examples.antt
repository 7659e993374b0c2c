-- ===== src/Mutate/Indexes/Examples.antt =====
-- An empty index with an image appended whose media type is overridden.
use go_containerregistry.Prelude.{ℕ, ◌≡◌, refl, [], ◌∷◌, none, some, Str, codes, ok, err}
use go_containerregistry.Platform.Descriptors.{Descriptor}
use go_containerregistry.Partial.Objects.{IndexManifest, unknown_blob}
use go_containerregistry.Mutate.Indexes.{
  an_image, BaseIndex, MutatedIndex, compute_descriptor, added_to, add_all, with_maps, finished,
  computed_from, compute_index_unless, compute_index,
}
use go_containerregistry.Mutate.Indexes.Listed.{IsListed, compute_index-IsListed}

abbrev descriptor_of : Str → Descriptor
descriptor_of mt = record {
  media_type = mt;
  size = 2;
  digest = record { algorithm = codes "sha256"; hex = codes "a" };
  urls = [];
  annotations = [];
  platform = none;
}

abbrev empty_base : BaseIndex ℕ ℕ
empty_base = record {
  media_type = ok (codes "application/vnd.oci.image.index.v1+json");
  index_manifest =
      ok (record { schema_version = 2; media_type = []; manifests = []; annotations = [] });
  image = λ h. err (unknown_blob h);
  image_index = λ h. err (unknown_blob h);
}

abbrev one_image : MutatedIndex ℕ ℕ
one_image = record {
  base = empty_base;
  adds =
      record {
        add = an_image 7;
        described = ok (descriptor_of (codes "a"));
        descriptor = descriptor_of (codes "b");
      }
      ∷ [];
  media_type = none;
  manifest = none;
  image_map = [];
  index_map = [];
}

compute_index-IsListed_example :
    (n : IndexManifest) × ((compute_index one_image).1.manifest ≡ some n) × IsListed one_image n
unfolding compute_index compute_index_unless computed_from finished with_maps add_all added_to
    compute_descriptor
compute_index-IsListed_example =
    compute_index-IsListed one_image (compute_index one_image).1 refl refl
