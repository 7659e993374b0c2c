-- ===== src/Platform/Matchers.antt =====
-- pkg/v1/match/match.go.
use go_containerregistry.Prelude.{
  ℕ, zero, suc, ◌≡◌, ◌↔◌, inl, inr, refl, sym, subst, Bool, true, false, Bool-cases, ◌||◌, List, [],
  ◌∷◌, any, Option, none, some, some_injective, get_elem?, Str, codes, str_eq, is_empty,
  if◌then◌else◌,
}
use go_containerregistry.Hash.{Hash}
use go_containerregistry.Platform.{Platform, equals}
use go_containerregistry.Platform.Equality.{SamePlatform, equals_iff}
use go_containerregistry.Platform.Descriptors.{Descriptor, annotation_at, hash_eq}

abbrev pub Matcher : Type 0
Matcher = Descriptor → Bool

annotation_is : Str → Option Str → Bool
annotation_is value none = false
annotation_is value (some a) = str_eq a value

unfoldable pub match_annotation : Str → Str → Matcher
unfolding annotation_is
match_annotation key value desc = annotation_is value (annotation_at desc.annotations key)

-- the annotation of github.com/opencontainers/image-spec that holds a reference's name
unfoldable pub match_name : Str → Matcher
match_name name = match_annotation (codes "org.opencontainers.image.ref.name") name

platform_in : List Platform → Option Platform → Bool
platform_in ps none = false
platform_in ps (some p) = any (equals p) ps

unfoldable pub match_platforms : List Platform → Matcher
unfolding platform_in
match_platforms ps desc = platform_in ps desc.platform

unfoldable pub match_media_types : List Str → Matcher
match_media_types mts desc =
    if is_empty desc.media_type then false else any (str_eq desc.media_type) mts

unfoldable pub match_digests : List Hash → Matcher
match_digests digests desc = any (hash_eq desc.digest) digests

-- One of the platforms is the platform `p`, up to the order of features.
abbrev pub HasPlatform : List Platform → Platform → Type 0
HasPlatform ps p = (i : ℕ) × (q : Platform) × (get_elem? ps i ≡ some q) × SamePlatform p q

or-true : (a : Bool) {b : Bool} → b ≡ true → (a || b) ≡ true
or-true true h = refl
or-true false h = h

any-HasPlatform : (ps : List Platform) (p : Platform) → any (equals p) ps ≡ true → HasPlatform ps p
any-HasPlatform [] p h = cc
any-HasPlatform (q ∷ ps) p h = elim (Bool-cases (equals p q)) [
  | inl e ↦ (0, q, refl, (equals_iff p q).0 e)
  | inr e ↦ (let (i, r, at, same) = any-HasPlatform ps p (rw e at h) in (suc i, r, at, same))
]

HasPlatform-any : (ps : List Platform) (p : Platform) → HasPlatform ps p → any (equals p) ps ≡ true
HasPlatform-any [] p (i, q, h, same) = cc
HasPlatform-any (r ∷ ps) p (zero, q, h, same) =
    let e = (equals_iff p r).1 (subst (SamePlatform p) (sym (some_injective h)) same) in rw e
HasPlatform-any (r ∷ ps) p (suc i, q, h, same) =
    let e = HasPlatform-any ps p (i, q, h, same) in or-true (equals p r) e

platform_in_iff :
    (ps : List Platform) (o : Option Platform)
    → (platform_in ps o ≡ true) ↔ ((p : Platform) × (o ≡ some p) × HasPlatform ps p)
unfolding platform_in
platform_in_iff ps none = (λ h. cc, λ (p, e, has). cc)
platform_in_iff ps (some p) = (
  λ h. (p, refl, any-HasPlatform ps p h),
  λ (q, e, has). HasPlatform-any ps p (subst (HasPlatform ps) (sym (some_injective e)) has),
)

-- The matcher of platforms matches exactly the descriptors that have a platform which is one of
-- those platforms up to the order of features; a descriptor without a platform does not match.
pub match_platforms_iff :
    (ps : List Platform) (d : Descriptor)
    → (match_platforms ps d ≡ true) ↔ ((p : Platform) × (d.platform ≡ some p) × HasPlatform ps p)
unfolding match_platforms
match_platforms_iff ps d = platform_in_iff ps d.platform
