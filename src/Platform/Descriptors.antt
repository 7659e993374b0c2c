-- ===== src/Platform/Descriptors.antt =====
-- The media types of pkg/v1/types/types.go, and the descriptors of pkg/v1/manifest.go. A map of
-- annotations is a list of its entries.
use go_containerregistry.Prelude.{
  ℕ, Bool, ◌&&◌, ◌||◌, not, List, [], ◌∷◌, Option, none, some, Str, codes, str_eq, if◌then◌else◌,
}
use go_containerregistry.Hash.{Hash}
use go_containerregistry.Platform.{Platform}

abbrev pub MediaType : Type 0
MediaType = Str

abbrev pub oci_image_index : MediaType
oci_image_index = codes "application/vnd.oci.image.index.v1+json"

abbrev pub oci_manifest_schema1 : MediaType
oci_manifest_schema1 = codes "application/vnd.oci.image.manifest.v1+json"

abbrev pub oci_restricted_layer : MediaType
oci_restricted_layer = codes "application/vnd.oci.image.layer.nondistributable.v1.tar+gzip"

abbrev pub oci_uncompressed_restricted_layer : MediaType
oci_uncompressed_restricted_layer = codes "application/vnd.oci.image.layer.nondistributable.v1.tar"

abbrev pub docker_manifest_schema2 : MediaType
docker_manifest_schema2 = codes "application/vnd.docker.distribution.manifest.v2+json"

abbrev pub docker_manifest_list : MediaType
docker_manifest_list = codes "application/vnd.docker.distribution.manifest.list.v2+json"

abbrev pub docker_foreign_layer : MediaType
docker_foreign_layer = codes "application/vnd.docker.image.rootfs.foreign.diff.tar.gzip"

unfoldable pub is_distributable : MediaType → Bool
is_distributable m = not (
    str_eq m docker_foreign_layer
    || str_eq m oci_restricted_layer
    || str_eq m oci_uncompressed_restricted_layer)

unfoldable pub is_image : MediaType → Bool
is_image m = str_eq m oci_manifest_schema1 || str_eq m docker_manifest_schema2

unfoldable pub is_index : MediaType → Bool
is_index m = str_eq m oci_image_index || str_eq m docker_manifest_list

pub record Descriptor : Type 0 where
  pub media_type : MediaType
  pub size : ℕ
  pub digest : Hash
  pub urls : List Str
  pub annotations : List (Str × Str)
  pub platform : Option Platform

-- `m[key]`
unfoldable pub annotation_at : List (Str × Str) → Str → Option Str
annotation_at [] key = none
annotation_at ((k, v) ∷ m) key =
    let rest = annotation_at m key in if str_eq k key then some v else rest

unfoldable pub hash_eq : Hash → Hash → Bool
hash_eq a b = str_eq a.algorithm b.algorithm && str_eq a.hex b.hex
