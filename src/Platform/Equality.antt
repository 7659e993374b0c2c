-- ===== src/Platform/Equality.antt =====
-- Two platforms are equal up to the order of their features.
use mathlib.Core.List.{Perm}
use go_containerregistry.Prelude.{
  ◌≡◌, refl, sym, ap, ◌∙◌, ◌↔◌, true, List, [], ◌∷◌, Str, str_eq→eq, str_eq_refl, str_eq_iff, arith,
}
use go_containerregistry.Platform.Sorting.{sort, sort-eq_iff_perm}
use go_containerregistry.Platform.{
  Platform, string_slice_equal, string_slice_equal_ignore_order, equals,
}

string_slice_equal→eq : (a b : List Str) → string_slice_equal a b ≡ true → a ≡ b
unfolding string_slice_equal
string_slice_equal→eq [] [] h = refl
string_slice_equal→eq [] (y ∷ ys) h = cc
string_slice_equal→eq (x ∷ xs) [] h = cc
string_slice_equal→eq (x ∷ xs) (y ∷ ys) h =
    ground (arith, str_eq→eq x y, string_slice_equal→eq xs ys)

string_slice_equal_refl : (a : List Str) → string_slice_equal a a ≡ true
unfolding string_slice_equal
string_slice_equal_refl [] = refl
string_slice_equal_refl (x ∷ xs) = rw (str_eq_refl, string_slice_equal_refl xs)

-- The comparison that ignores order holds exactly of two lists with the same strings, as often.
pub ignore_order-iff_perm :
    (a b : List Str) → (string_slice_equal_ignore_order a b ≡ true) ↔ Perm a b
unfolding string_slice_equal_ignore_order
ignore_order-iff_perm a b = (
  λ h. (sort-eq_iff_perm a b).0 (string_slice_equal→eq (sort a) (sort b) h),
  λ p.
      ap (string_slice_equal (sort a)) (sym ((sort-eq_iff_perm a b).1 p))
      ∙ string_slice_equal_refl (sort a),
)

-- The same platform, up to the order of its features.
pub record SamePlatform (p o : Platform) : Type 0 where
  pub os : p.os ≡ o.os
  pub architecture : p.architecture ≡ o.architecture
  pub variant : p.variant ≡ o.variant
  pub os_version : p.os_version ≡ o.os_version
  pub os_features : Perm p.os_features o.os_features
  pub features : Perm p.features o.features

-- `Equals` holds exactly of platforms that agree in the operating system, its version, the
-- architecture and the variant, and have the same features of both kinds in any order.
pub equals_iff : (p o : Platform) → (equals p o ≡ true) ↔ SamePlatform p o
unfolding equals
equals_iff p o = (forward, backward)
  where
    forward : equals p o ≡ true → SamePlatform p o
    forward h = record {
      os = str_eq→eq p.os o.os (ground arith);
      architecture = str_eq→eq p.architecture o.architecture (ground arith);
      variant = str_eq→eq p.variant o.variant (ground arith);
      os_version = str_eq→eq p.os_version o.os_version (ground arith);
      os_features = (ignore_order-iff_perm p.os_features o.os_features).0 (ground arith);
      features = (ignore_order-iff_perm p.features o.features).0 (ground arith);
    }

    backward : SamePlatform p o → equals p o ≡ true
    backward s = ground (
      arith,
      (str_eq_iff p.os o.os).1 s.os,
      (str_eq_iff p.architecture o.architecture).1 s.architecture,
      (str_eq_iff p.variant o.variant).1 s.variant,
      (str_eq_iff p.os_version o.os_version).1 s.os_version,
      (ignore_order-iff_perm p.os_features o.os_features).1 s.os_features,
      (ignore_order-iff_perm p.features o.features).1 s.features,
    )
