-- ===== src/Platform/Examples.antt =====
-- The theorems on platforms at concrete platforms and descriptors.
use go_containerregistry.Prelude.{
  ◌≡◌, ◌↔◌, refl, true, false, List, [], ◌∷◌, Option, none, some, codes, Result, ok, err, ℕ, All,
  str_eq,
}
use go_containerregistry.Platform.{Platform, equals}
use go_containerregistry.Platform.Equality.{SamePlatform, equals_iff}
use go_containerregistry.Platform.Descriptors.{Descriptor, docker_manifest_schema2}
use go_containerregistry.Platform.Matchers.{match_platforms, HasPlatform, match_platforms_iff}
use go_containerregistry.Platform.Selection.{
  Matches, SelectError, no_child_with_platform, matches_platform, matches_platform_iff,
  child_by_platform, child_by_platform-first, child_descriptor, is_subset, platform_or_default,
}

abbrev linux_arm : Platform
linux_arm = record {
  architecture = codes "arm";
  os = codes "linux";
  os_version = [];
  os_features = codes "b" ∷ codes "a" ∷ [];
  variant = codes "v7";
  features = [];
}

abbrev linux_arm_ab : Platform
linux_arm_ab = record linux_arm { os_features = codes "a" ∷ codes "b" ∷ [] }

abbrev any_arm : Platform
any_arm = record linux_arm { os_features = codes "a" ∷ []; variant = [] }

abbrev any_linux_arm : Platform
any_linux_arm = record any_arm { os_features = [] }

equals_iff_example : (equals linux_arm linux_arm_ab ≡ true) ↔ SamePlatform linux_arm linux_arm_ab
equals_iff_example = equals_iff linux_arm linux_arm_ab

matches_platform_iff_example :
    (matches_platform linux_arm any_arm ≡ true) ↔ Matches linux_arm any_arm
matches_platform_iff_example = matches_platform_iff linux_arm any_arm

abbrev image_for : Option Platform → Descriptor
image_for p = record {
  media_type = docker_manifest_schema2;
  size = 3;
  digest = record { algorithm = codes "sha256"; hex = codes "00" };
  urls = [];
  annotations = [];
  platform = p;
}

match_platforms_iff_example :
    (match_platforms (linux_arm ∷ []) (image_for (some linux_arm_ab)) ≡ true)
    ↔ ((p : Platform) × (some linux_arm_ab ≡ some p) × HasPlatform (linux_arm ∷ []) p)
match_platforms_iff_example = match_platforms_iff (linux_arm ∷ []) (image_for (some linux_arm_ab))

abbrev fetched : Descriptor → Result SelectError (List ℕ)
fetched d = ok (1 ∷ [])

abbrev amd64 : Descriptor
amd64 = image_for none

-- a platform that is absent counts as linux/amd64
amd64-is_passed :
    All (λ e. matches_platform (platform_or_default e.platform) any_arm ≡ false) (amd64 ∷ [])
unfolding matches_platform platform_or_default str_eq
amd64-is_passed = (refl, tt)

arm-is_taken : matches_platform (platform_or_default (some linux_arm)) any_arm ≡ true
unfolding matches_platform platform_or_default is_subset str_eq
arm-is_taken = refl

child_by_platform-first_example :
    (child_by_platform fetched (ok (amd64 ∷ image_for (some linux_arm) ∷ amd64 ∷ [])) any_arm
      ≡ child_descriptor fetched (image_for (some linux_arm)) any_arm)
    × (child_by_platform fetched (ok (amd64 ∷ [])) any_arm ≡ err (no_child_with_platform any_arm))
child_by_platform-first_example =
    child_by_platform-first fetched (amd64 ∷ []) (image_for (some linux_arm)) (amd64 ∷ []) any_arm
      amd64-is_passed arm-is_taken
