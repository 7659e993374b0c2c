-- ===== src/Platform.antt =====
-- pkg/v1/platform.go, pkg/v1/types/types.go, the descriptors of pkg/v1/manifest.go, the matchers of
-- pkg/v1/match/match.go, and the choice of a child in pkg/v1/remote/index.go. Slices are lists, and
-- nil is the empty one.
pub mod Sorting
pub mod Equality
pub mod Descriptors
pub mod Hashes
pub mod Matchers
pub mod Selection
mod Examples
use go_containerregistry.Prelude.{Bool, true, false, ◌&&◌, List, [], ◌∷◌, Str, str_eq}
use go_containerregistry.Platform.Sorting.{sort}

pub record Platform : Type 0 where
  pub architecture : Str
  pub os : Str
  pub os_version : Str
  pub os_features : List Str
  pub variant : Str
  pub features : List Str

unfoldable pub string_slice_equal : List Str → List Str → Bool
string_slice_equal [] [] = true
string_slice_equal [] (_ ∷ _) = false
string_slice_equal (_ ∷ _) [] = false
string_slice_equal (x ∷ xs) (y ∷ ys) = str_eq x y && string_slice_equal xs ys

-- The result of the comparison; that `sort.Strings` also leaves the two slices sorted is not
-- modelled.
unfoldable pub string_slice_equal_ignore_order : List Str → List Str → Bool
string_slice_equal_ignore_order a b = string_slice_equal (sort a) (sort b)

unfoldable pub equals : Platform → Platform → Bool
equals p o =
    str_eq p.os o.os
    && str_eq p.architecture o.architecture
    && str_eq p.variant o.variant
    && str_eq p.os_version o.os_version
    && string_slice_equal_ignore_order p.os_features o.os_features
    && string_slice_equal_ignore_order p.features o.features
