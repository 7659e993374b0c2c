-- ===== src/Platform/Selection.antt =====
-- pkg/v1/remote/index.go: which child of an index is taken for a platform or a digest. Fetching
-- the manifest of the child is a parameter.
use go_containerregistry.Prelude.{
  ℕ, ◌≡◌, ◌↔◌, refl, sym, ◌∙◌, Bool, true, false, ◌&&◌, ◌||◌, not, List, [], ◌∷◌, ◌++◌, any, all,
  All, Option, none, some, Str, codes, str_eq, str_eq_refl, str_eq_iff, ◌⊎◌, str_eq→eq, is_empty,
  if◌then◌else◌, Bool-cases, inl, inr, Result, ok, err, ◌>>=◌, arith,
}
use go_containerregistry.Hash.{Hash}
use go_containerregistry.Platform.{Platform}
use go_containerregistry.Platform.Descriptors.{Descriptor, hash_eq}

unfoldable pub is_subset : List Str → List Str → Bool
is_subset lst required = all (λ v. any (str_eq v) lst) required

unfoldable pub matches_platform : Platform → Platform → Bool
matches_platform given required =
    if not (str_eq given.architecture required.architecture) || not (str_eq given.os required.os)
    then false
    else if not (is_empty required.os_version) && not (str_eq given.os_version required.os_version)
    then false
    else if not (is_empty required.variant) && not (str_eq given.variant required.variant)
    then false
    else if not (is_subset given.os_features required.os_features)
    then false
    else if not (is_subset given.features required.features)
    then false
    else true

-- defaultPlatform of pkg/v1/remote/options.go
abbrev pub default_platform : Platform
default_platform = record {
  architecture = codes "amd64";
  os = codes "linux";
  os_version = [];
  os_features = [];
  variant = [];
  features = [];
}

unfoldable pub platform_or_default : Option Platform → Platform
platform_or_default none = default_platform
platform_or_default (some p) = p

-- A child of an index: its descriptor, its manifest, and the platform for nested indexes.
pub record Child : Type 0 where
  pub descriptor : Descriptor
  pub manifest : List ℕ
  pub platform : Platform

-- an error of the index or of the fetch, or no child
pub data SelectError : Type 0 where
  failed : Str → SelectError
  no_child_with_platform : Platform → SelectError
  no_child_with_digest : Hash → SelectError

module _ (fetch : Descriptor → Result SelectError (List ℕ)) where
  unfoldable pub child_descriptor : Descriptor → Platform → Result SelectError Child
  child_descriptor child platform = do
    manifest ← fetch child
    ok (record { descriptor = child; manifest = manifest; platform = platform })

  platform_loop : List Descriptor → Platform → Result SelectError Child
  platform_loop [] platform = err (no_child_with_platform platform)
  platform_loop (child ∷ rest) platform =
      let later = platform_loop rest platform in
      if matches_platform (platform_or_default child.platform) platform
      then child_descriptor child platform
      else later

  unfoldable pub child_by_platform :
      Result SelectError (List Descriptor) → Platform → Result SelectError Child
  unfolding platform_loop
  child_by_platform index platform = do manifests ← index; platform_loop manifests platform

  hash_loop : List Descriptor → Hash → Result SelectError Child
  hash_loop [] h = err (no_child_with_digest h)
  hash_loop (child ∷ rest) h =
      let later = hash_loop rest h in
      if hash_eq h child.digest then child_descriptor child default_platform else later

  unfoldable pub child_by_hash :
      Result SelectError (List Descriptor) → Hash → Result SelectError Child
  unfolding hash_loop
  child_by_hash index h = do manifests ← index; hash_loop manifests h

  abbrev fits : Platform → Descriptor → Bool
  fits platform d = matches_platform (platform_or_default d.platform) platform

  -- The child that is taken for a platform is the first whose platform, linux/amd64 if it has none,
  -- matches the platform; an index without such a child is the error that says so.
  pub child_by_platform-first :
      (before : List Descriptor) (d : Descriptor) (rest : List Descriptor) (platform : Platform)
      → All (λ e. fits platform e ≡ false) before
      → fits platform d ≡ true
      → (child_by_platform (ok (before ++ d ∷ rest)) platform ≡ child_descriptor d platform)
        × (child_by_platform (ok before) platform ≡ err (no_child_with_platform platform))
  unfolding child_by_platform
  child_by_platform-first [] d rest platform h f = (rw f, refl)
  child_by_platform-first (e ∷ before) d rest platform (h, hs) f =
      let ih = child_by_platform-first before d rest platform hs f in (rw h ih.0, rw h ih.1)

-- The string is in the list.
abbrev pub Has : List Str → Str → Type 0
Has l v = any (str_eq v) l ≡ true

Has-of_subset :
    (lst required : List Str) (v : Str)
    → all (λ w. any (str_eq w) lst) required ≡ true
    → Has required v
    → Has lst v
Has-of_subset lst [] v h k = cc
Has-of_subset lst (x ∷ required) v h k = elim (Bool-cases (str_eq v x)) [
  | inl e ↦ rw (str_eq→eq v x e) (all-head lst x required h)
  | inr e ↦ Has-of_subset lst required v (all-tail lst x required h) (rw e at k)
]
  where
    all-head :
        (l : List Str) (y : Str) (r : List Str)
        → all (λ w. any (str_eq w) l) (y ∷ r) ≡ true
        → any (str_eq y) l ≡ true
    all-head l y r q = ground arith

    all-tail :
        (l : List Str) (y : Str) (r : List Str)
        → all (λ w. any (str_eq w) l) (y ∷ r) ≡ true
        → all (λ w. any (str_eq w) l) r ≡ true
    all-tail l y r q = ground arith

Has-later : (x : Str) (l : List Str) (v : Str) → Has l v → Has (x ∷ l) v
Has-later x l v h = ground arith

Has-here : (x : Str) (l : List Str) → Has (x ∷ l) x
Has-here x l = rw str_eq_refl

subset_of_Has :
    (lst required : List Str)
    → ((v : Str) → Has required v → Has lst v)
    → all (λ w. any (str_eq w) lst) required ≡ true
subset_of_Has lst [] h = refl
subset_of_Has lst (x ∷ required) h =
    rw (h x (Has-here x required))
      (subset_of_Has lst required (λ v k. h v (Has-later x required v k)))

-- Every required string is in the list.
pub is_subset_iff :
    (lst required : List Str)
    → (is_subset lst required ≡ true) ↔ ((v : Str) → Has required v → Has lst v)
unfolding is_subset
is_subset_iff lst required = (λ h v. Has-of_subset lst required v h, subset_of_Has lst required)

-- A part of a platform that counts only if it is required.
abbrev IfProvided : Str → Str → Type 0
IfProvided given required = (required ≡ []) ⊎ (given ≡ required)

-- What the comment on `matchesPlatform` asks for.
pub record Matches (given required : Platform) : Type 0 where
  pub architecture : given.architecture ≡ required.architecture
  pub os : given.os ≡ required.os
  pub os_version : IfProvided given.os_version required.os_version
  pub variant : IfProvided given.variant required.variant
  pub os_features : (v : Str) → Has required.os_features v → Has given.os_features v
  pub features : (v : Str) → Has required.features v → Has given.features v

if_provided :
    (given required : Str)
    → (not (is_empty required) && not (str_eq given required)) ≡ false
    → IfProvided given required
if_provided given [] h = inl refl
if_provided given (c ∷ required) h = inr (str_eq→eq given (c ∷ required) (ground arith))

provided :
    (given required : Str)
    → IfProvided given required
    → (not (is_empty required) && not (str_eq given required)) ≡ false
provided given required (inl e) = rw e
provided given required (inr e) = rw (e, str_eq_refl) (last (is_empty required))
  where
    last : (b : Bool) → (not b && false) ≡ false
    last true = refl
    last false = refl

module _ (given required : Platform) where
  parts_of_match :
      matches_platform given required ≡ true
      → (str_eq given.architecture required.architecture ≡ true)
        × (str_eq given.os required.os ≡ true)
        × ((not (is_empty required.os_version) && not (str_eq given.os_version required.os_version))
            ≡ false)
        × ((not (is_empty required.variant) && not (str_eq given.variant required.variant)) ≡ false)
        × (is_subset given.os_features required.os_features ≡ true)
        × (is_subset given.features required.features ≡ true)
  unfolding matches_platform
  parts_of_match h = ground arith

  match_of_parts :
      str_eq given.architecture required.architecture ≡ true
      → str_eq given.os required.os ≡ true
      → (not (is_empty required.os_version) && not (str_eq given.os_version required.os_version))
        ≡ false
      → (not (is_empty required.variant) && not (str_eq given.variant required.variant)) ≡ false
      → is_subset given.os_features required.os_features ≡ true
      → is_subset given.features required.features ≡ true
      → matches_platform given required ≡ true
  unfolding matches_platform
  match_of_parts a o v w f g = rw (a, o, v, w, f, g)

-- A platform matches a required one exactly if the architecture and the system are the same, the
-- version and the variant are the same where they are required, and each list of features has all
-- that are required.
pub matches_platform_iff :
    (given required : Platform) → (matches_platform given required ≡ true) ↔ Matches given required
matches_platform_iff given required = (forward, backward)
  where
    forward : matches_platform given required ≡ true → Matches given required
    forward h =
        let p = parts_of_match given required h in
        record {
          architecture = str_eq→eq _ _ p.0;
          os = str_eq→eq _ _ p.1;
          os_version = if_provided given.os_version required.os_version p.2;
          variant = if_provided given.variant required.variant p.3;
          os_features = (is_subset_iff given.os_features required.os_features).0 p.4;
          features = (is_subset_iff given.features required.features).0 p.5;
        }

    backward : Matches given required → matches_platform given required ≡ true
    backward m =
        match_of_parts given required
          ((str_eq_iff given.architecture required.architecture).1 m.architecture)
          ((str_eq_iff given.os required.os).1 m.os)
          (provided given.os_version required.os_version m.os_version)
          (provided given.variant required.variant m.variant)
          ((is_subset_iff given.os_features required.os_features).1 m.os_features)
          ((is_subset_iff given.features required.features).1 m.features)

IfProvided-trans : (a b c : Str) → IfProvided a b → IfProvided b c → IfProvided a c
IfProvided-trans a b c h (inl e) = inl e
IfProvided-trans a b c (inl d) (inr e) = inl (sym e ∙ d)
IfProvided-trans a b c (inr d) (inr e) = inr (d ∙ e)

-- A platform that matches a second one matches whatever the second one matches.
pub matches_platform_trans :
    (p q r : Platform)
    → matches_platform p q ≡ true
    → matches_platform q r ≡ true
    → matches_platform p r ≡ true
matches_platform_trans p q r h k =
    let m = (matches_platform_iff p q).0 h in
    let n = (matches_platform_iff q r).0 k in
    (matches_platform_iff p r).1 (record {
      architecture = m.architecture ∙ n.architecture;
      os = m.os ∙ n.os;
      os_version = IfProvided-trans _ _ _ m.os_version n.os_version;
      variant = IfProvided-trans _ _ _ m.variant n.variant;
      os_features = λ v x. m.os_features v (n.os_features v x);
      features = λ v x. m.features v (n.features v x);
    })
