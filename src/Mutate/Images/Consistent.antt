-- ===== src/Mutate/Images/Consistent.antt =====
-- What `compute` of pkg/v1/mutate/image.go makes of the base image and the addendums.
use go_containerregistry.Prelude.{
  ℕ, ◌≡◌, refl, sym, ap, ◌∙◌, List, [], ◌∷◌, ◌++◌, append_assoc, append-nil, length, none, some,
  Option-cases, inl, inr, ok, ◌>>=◌, >>=-eq-ok, ok_injective, arith,
}
use go_containerregistry.Hash.{Hash, sha256, sha256_name, hex_encode}
use go_containerregistry.Platform.Descriptors.{Descriptor}
use go_containerregistry.Platform.Hashes.{HashMap}
use go_containerregistry.Partial.Objects.{History, ConfigFile, Manifest, Layer}
use go_containerregistry.Partial.With.{descriptor}
use go_containerregistry.Mutate.Images.{
  Addendum, Computed, Mutated, Grown, with_history, grow, overridden, describe, start_config,
  compute, compute_unless, completed, with_config, media_type_for,
}

-- The descriptors and the diff IDs of the layers of some addendums.
pub data AreAdded : List Addendum → List Descriptor → List Hash → Type 0 where
  none_left : AreAdded [] [] []
  bare :
      {add : Addendum} {adds : List Addendum} {ds : List Descriptor} {ids : List Hash}
      → add.layer ≡ none
      → AreAdded adds ds ids
      → AreAdded (add ∷ adds) ds ids
  layered :
      {add : Addendum} {adds : List Addendum} {ds : List Descriptor} {ids : List Hash} (l : Layer)
      (d : Hash) (desc : Descriptor)
      → add.layer ≡ some l
      → l.diff_id ≡ ok d
      → descriptor l ≡ ok desc
      → AreAdded adds ds ids
      → AreAdded (add ∷ adds) (overridden add desc ∷ ds) (d ∷ ids)

abbrev pub histories : List Addendum → List History
histories [] = []
histories (add ∷ adds) = add.history ∷ histories adds

AreAdded-length :
    {adds : List Addendum} {ds : List Descriptor} {ids : List Hash}
    → AreAdded adds ds ids
    → length ds ≡ length ids
AreAdded-length none_left = refl
AreAdded-length (bare e a) = AreAdded-length a
AreAdded-length (layered l d desc e f g a) = omega (arith, AreAdded-length a)

-- What the two loops make of the addendums.
record Loops (adds : List Addendum) (g g' : Grown) (before after : List Descriptor) : Type 0 where
  ds : List Descriptor
  ids : List Hash
  are_added : AreAdded adds ds ids
  history : g'.history ≡ g.history ++ histories adds
  diff_ids : g'.diff_ids ≡ g.diff_ids ++ ids
  layers : after ≡ before ++ ds

loops :
    (adds : List Addendum) (g g' : Grown) (before after : List Descriptor) (ms ms' : HashMap Layer)
    → grow adds g ≡ ok g'
    → describe adds before ms ≡ ok (after, ms')
    → Loops adds g g' before after
unfolding grow describe with_history
loops [] g g' before after ms ms' h k = record {
  ds = [];
  ids = [];
  are_added = none_left;
  history = sym (ap (λ x. x.history) (ok_injective h)) ∙ sym (append-nil g.history);
  diff_ids = sym (ap (λ x. x.diff_ids) (ok_injective h)) ∙ sym (append-nil g.diff_ids);
  layers = sym (ap (λ x. x.0) (ok_injective k)) ∙ sym (append-nil before);
}
loops (add ∷ adds) g g' before after ms ms' h k = elim (Option-cases add.layer) [
  | inl e ↦
      let r =
        loops adds (with_history g add.history) g' before after ms ms' (rw e at h) (rw e at k) in
      record {
        ds = r.ds;
        ids = r.ids;
        are_added = bare e r.are_added;
        history = r.history ∙ append_assoc g.history (add.history ∷ []) (histories adds);
        diff_ids = r.diff_ids;
        layers = r.layers;
      }
  | inr (l, e) ↦
      let (d, h1, hd) = >>=-eq-ok l.diff_id _ (rw e at h) in
      let (desc, k1, hdesc) = >>=-eq-ok (descriptor l) _ (rw e at k) in
      let r = loops adds _ g' _ after _ ms' h1 k1 in
      record {
        ds = overridden add desc ∷ r.ds;
        ids = d ∷ r.ids;
        are_added = layered l d desc e hd hdesc r.are_added;
        history = r.history ∙ append_assoc g.history (add.history ∷ []) (histories adds);
        diff_ids = r.diff_ids ∙ append_assoc g.diff_ids (d ∷ []) r.ids;
        layers = r.layers ∙ append_assoc before (overridden add desc ∷ []) r.ds;
      }
]

-- What a computed image consists of: the config file and the manifest of the base with those of
-- the addendums behind them.
pub record IsComputed (sum : List ℕ → List ℕ) (marshal_config : ConfigFile → List ℕ) (i : Mutated)
    (c : Computed) : Type 0 where
  pub cf : ConfigFile
  pub m : Manifest
  pub ds : List Descriptor
  pub ids : List Hash
  pub cf_eq : start_config i ≡ ok cf
  pub m_eq : i.base.manifest ≡ ok m
  pub are_added : AreAdded i.adds ds ids
  pub history : c.config_file.history ≡ cf.history ++ histories i.adds
  pub diff_ids : c.config_file.diff_ids ≡ cf.diff_ids ++ ids
  pub layers : c.manifest.layers ≡ m.layers ++ ds
  pub config_digest :
      c.manifest.config.digest
      ≡ record { algorithm = sha256_name; hex = hex_encode (sum (marshal_config c.config_file)) }
  pub config_size : c.manifest.config.size ≡ length (marshal_config c.config_file)
  pub media_type : c.manifest.media_type ≡ media_type_for i.media_type m.media_type

module _ (sum : List ℕ → List ℕ) (marshal_config : ConfigFile → List ℕ) where
  abbrev started : ConfigFile → Grown
  started cf = record { history = cf.history; diff_ids = cf.diff_ids; diff_id_map = [] }

  abbrev HasComputed : Mutated → Mutated → Type 0
  HasComputed i j = (c : Computed) × (j.computed ≡ some c) × IsComputed sum marshal_config i c

  completed-IsComputed :
      (i j : Mutated) (cf : ConfigFile) (g : Grown) (m : Manifest) (layers : List Descriptor)
      (digests : HashMap Layer)
      → start_config i ≡ ok cf
      → i.base.manifest ≡ ok m
      → Loops i.adds (started cf) g m.layers layers
      → completed sum marshal_config i cf g m (layers, digests) ≡ ok j
      → HasComputed i j
  unfolding completed with_config sha256
  completed-IsComputed i j cf g m layers digests e f r h =
      let config : ConfigFile = record cf { diff_ids = g.diff_ids; history = g.history } in
      (
        _,
        sym (ap (λ x. x.computed) (ok_injective h)),
        record {
          cf = cf;
          m = m;
          ds = r.ds;
          ids = r.ids;
          cf_eq = e;
          m_eq = f;
          are_added = r.are_added;
          history = r.history;
          diff_ids = r.diff_ids;
          layers = r.layers;
          config_digest = refl;
          config_size = refl;
          media_type = refl;
        },
      )

  stages :
      (i j : Mutated) (cf : ConfigFile)
      → start_config i ≡ ok cf
      → (do
        g ← grow i.adds (started cf)
        m ← i.base.manifest
        described ← describe i.adds m.layers []
        completed sum marshal_config i cf g m described)
        ≡ ok j
      → HasComputed i j
  stages i j cf e h =
      let (g, h2, hg) = >>=-eq-ok (grow i.adds (started cf)) _ h in
      let (m, h3, hm) = >>=-eq-ok i.base.manifest _ h2 in
      let (d, h4, hd) = >>=-eq-ok (describe i.adds m.layers []) _ h3 in
      completed-IsComputed i j cf g m d.0 d.1 e hm
        (loops i.adds (started cf) g m.layers d.0 [] d.1 hg hd) h4

  -- Computing an image that is not computed appends the history, the diff IDs and the descriptors
  -- of the addendums to those of the base, in order, and lets the manifest name the digest and the
  -- size of the config file that results.
  pub compute-IsComputed :
      (i j : Mutated)
      → i.computed ≡ none
      → compute sum marshal_config i ≡ ok j
      → (c : Computed) × (j.computed ≡ some c) × IsComputed sum marshal_config i c
  unfolding compute compute_unless
  compute-IsComputed i j n h =
      let (cf, h1, e) =
        >>=-eq-ok (start_config i) _
          (ap (λ o. compute_unless sum marshal_config o i) (sym n) ∙ h) in
      stages i j cf e h1
