-- ===== src/Mutate/Images/Layered.antt =====
-- The layers that a mutated image of pkg/v1/mutate/image.go returns.
use go_containerregistry.Prelude.{
  ℕ, ◌≡◌, refl, sym, ap, subst, ◌∙◌, List, [], ◌∷◌, All, Option, none, some, some_injective,
  Option-cases, Bool-cases, inl, inr, ok, >>=-eq-ok, ok_injective,
}
use go_containerregistry.Hash.{Hash, sha256}
use go_containerregistry.Platform.Hashes.{HashMap, find, hash_eq→eq}
use go_containerregistry.Platform.Descriptors.{Descriptor, hash_eq}
use go_containerregistry.Partial.Objects.{ConfigFile, Manifest, Layer}
use go_containerregistry.Mutate.Images.{
  Addendum, Computed, Mutated, Grown, with_history, grow, start_config, describe, compute,
  compute_unless, completed, layers, layers_after, layer_by_diff_id, layers_by_diff_id, set,
  found_in, present, config_file, computing, after_compute,
}

-- Every layer is kept under its diff ID.
abbrev pub IsHonest : HashMap Layer → Type 0
IsHonest = All (λ kv. kv.1.diff_id ≡ ok kv.0)

find-IsHonest :
    (m : HashMap Layer) (h : Hash) (l : Layer) → IsHonest m → find m h ≡ some l → l.diff_id ≡ ok h
find-IsHonest [] h l a e = cc
find-IsHonest ((k, v) ∷ m) h l a e = elim (Bool-cases (hash_eq k h)) [
  | inl c ↦ rw (sym (some_injective (rw c at e)), sym (hash_eq→eq k h c)) a.0
  | inr c ↦ find-IsHonest m h l a.1 (rw c at e)
]

grow-IsHonest :
    (adds : List Addendum) (g g' : Grown)
    → IsHonest g.diff_id_map
    → grow adds g ≡ ok g'
    → IsHonest g'.diff_id_map
unfolding grow with_history
grow-IsHonest [] g g' a h = subst (λ x. IsHonest x.diff_id_map) (ok_injective h) a
grow-IsHonest (add ∷ adds) g g' a h = elim (Option-cases add.layer) [
  | inl e ↦ grow-IsHonest adds (with_history g add.history) g' a (rw e at h)
  | inr (l, e) ↦
      let (d, h1, hd) = >>=-eq-ok l.diff_id _ (rw e at h) in grow-IsHonest adds _ g' (hd, a) h1
]

-- The layers have the diff IDs, one by one.
abbrev pub HaveDiffIds : List (Option Layer) → List Hash → Type 0
HaveDiffIds [] [] = Unit
HaveDiffIds [] (h ∷ hs) = ⊥
HaveDiffIds (l ∷ ls) [] = ⊥
HaveDiffIds (l ∷ ls) (h ∷ hs) =
    ((layer : Layer) × (l ≡ some layer) × (layer.diff_id ≡ ok h)) × HaveDiffIds ls hs

module _ (i : Mutated)
    (base_honest : (h : Hash) (l : Layer)
      → i.base.layer_by_diff_id h ≡ ok l
      → l.diff_id ≡ ok h) where
  layer_by_diff_id-honest :
      (c : Computed) (h : Hash) (l : Layer)
      → i.computed ≡ some c
      → IsHonest c.diff_id_map
      → layer_by_diff_id i h ≡ ok l
      → l.diff_id ≡ ok h
  unfolding layer_by_diff_id found_in
  layer_by_diff_id-honest c h l e a q = elim (Option-cases (find c.diff_id_map h)) [
    | inl n ↦ base_honest h l (rw (e, n) at q)
    | inr (l', s) ↦ find-IsHonest c.diff_id_map h l a (s ∙ ap some (ok_injective (rw (e, s) at q)))
  ]

  layers_by_diff_id-HaveDiffIds :
      (c : Computed) (hs : List Hash) (ls : List Layer)
      → i.computed ≡ some c
      → IsHonest c.diff_id_map
      → layers_by_diff_id i hs ≡ ok ls
      → HaveDiffIds (present ls) hs
  unfolding layers_by_diff_id present
  layers_by_diff_id-HaveDiffIds c [] ls e a q =
      subst (λ x. HaveDiffIds (present x) []) (ok_injective q) tt
  layers_by_diff_id-HaveDiffIds c (h ∷ hs) ls e a q =
      let (l, q1, hl) = >>=-eq-ok (layer_by_diff_id i h) _ q in
      let (rest, q2, hr) = >>=-eq-ok (layers_by_diff_id i hs) _ q1 in
      subst (λ x. HaveDiffIds (present x) (h ∷ hs)) (ok_injective q2)
        (
          (l, refl, layer_by_diff_id-honest c h l e a hl),
          layers_by_diff_id-HaveDiffIds c hs rest e a hr,
        )

module _ (sum : List ℕ → List ℕ) (marshal_config : ConfigFile → List ℕ) where
  -- What is left of the image: its base, and maps that keep each layer under its diff ID.
  record Kept (i j : Mutated) : Type 0 where
    c : Computed
    computed : j.computed ≡ some c
    base : j.base ≡ i.base
    honest : IsHonest c.diff_id_map

  completed-Kept :
      (i j : Mutated) (cf : ConfigFile) (g : Grown) (m : Manifest)
      (d : List Descriptor × HashMap Layer)
      → IsHonest g.diff_id_map
      → completed sum marshal_config i cf g m d ≡ ok j
      → Kept i j
  unfolding completed sha256
  completed-Kept i j cf g m (layers, digests) a h = record {
    c = _;
    computed = sym (ap (λ x. x.computed) (ok_injective h));
    base = sym (ap (λ x. x.base) (ok_injective h));
    honest = a;
  }

  compute-Kept :
      (i j : Mutated) → i.computed ≡ none → compute sum marshal_config i ≡ ok j → Kept i j
  unfolding compute compute_unless
  compute-Kept i j n h =
      let (cf, h1, e) =
        >>=-eq-ok (start_config i) _
          (ap (λ o. compute_unless sum marshal_config o i) (sym n) ∙ h) in
      let (g, h2, hg) = >>=-eq-ok (grow i.adds _) _ h1 in
      let (m, h3, hm) = >>=-eq-ok i.base.manifest _ h2 in
      let (d, h4, hd) = >>=-eq-ok (describe i.adds m.layers []) _ h3 in
      completed-Kept i j cf g m d (grow-IsHonest i.adds _ g tt hg) h4

  after-HaveDiffIds :
      (i j : Mutated) (c : Computed) (ls : List (Option Layer))
      → ((h : Hash) (l : Layer) → j.base.layer_by_diff_id h ≡ ok l → l.diff_id ≡ ok h)
      → j.computed ≡ some c
      → IsHonest c.diff_id_map
      → (layers_after sum marshal_config i (ok j)).0 ≡ ok ls
      → HaveDiffIds ls c.config_file.diff_ids
  unfolding layers_after set
  after-HaveDiffIds i j c ls honest e a q =
      let (cf, q1, hc) = >>=-eq-ok (set (λ c. c.config_file) j) _ q in
      let (hs, q2, hl) = >>=-eq-ok (layers_by_diff_id j cf.diff_ids) _ q1 in
      let same : c.config_file ≡ cf = ok_injective (rw e at hc) in
      subst (λ x. HaveDiffIds x c.config_file.diff_ids) (ok_injective q2)
        (rw same (layers_by_diff_id-HaveDiffIds j honest c cf.diff_ids hs e a hl))

  config_file-computed :
      (i j : Mutated) (c : Computed) (cf : ConfigFile)
      → compute sum marshal_config i ≡ ok j
      → j.computed ≡ some c
      → (config_file sum marshal_config i).0 ≡ ok cf
      → c.config_file ≡ cf
  unfolding config_file computing after_compute set
  config_file-computed i j c cf h e r =
      let r' =
        ap (λ x. (after_compute sum marshal_config x i (set (λ c. c.config_file))).0) (sym h) ∙ r in
      ok_injective (rw e at r')

  -- For a base image that returns for a diff ID a layer with that diff ID: the layers of a mutated
  -- image that can be computed are as many as the diff IDs of its config file, and have them, one
  -- by one.
  pub layers-HaveDiffIds :
      (i j : Mutated) (ls : List (Option Layer)) (cf : ConfigFile)
      → ((h : Hash) (l : Layer) → i.base.layer_by_diff_id h ≡ ok l → l.diff_id ≡ ok h)
      → i.computed ≡ none
      → compute sum marshal_config i ≡ ok j
      → (layers sum marshal_config i).0 ≡ ok ls
      → (config_file sum marshal_config i).0 ≡ ok cf
      → HaveDiffIds ls cf.diff_ids
  unfolding layers
  layers-HaveDiffIds i j ls cf honest n h q r =
      let k = compute-Kept i j n h in
      let honest' : (d : Hash) (l : Layer) → j.base.layer_by_diff_id d ≡ ok l → l.diff_id ≡ ok d =
        λ d l e. honest d l (ap (λ b. b.layer_by_diff_id d) (sym k.base) ∙ e) in
      subst (λ x. HaveDiffIds ls x.diff_ids) (config_file-computed i j k.c cf h k.computed r)
        (after-HaveDiffIds i j k.c ls honest' k.computed k.honest
          (ap (λ x. (layers_after sum marshal_config i x).0) (sym h) ∙ q))
