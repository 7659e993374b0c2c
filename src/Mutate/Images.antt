-- ===== src/Mutate/Images.antt =====
-- pkg/v1/mutate/image.go: an image with addendums, computed when a method needs it. A method takes
-- the image to its result and to the image afterwards. `marshal_config` and `marshal_manifest` are
-- json.Marshal, which does not fail on these types.
pub mod Consistent
pub mod Layered
mod Examples
use go_containerregistry.Prelude.{
  ℕ, Bool, true, false, not, List, [], ◌∷◌, ◌++◌, Option, none, some, Str, codes, is_empty,
  has_prefix, ◌||◌, length, if◌then◌else◌, Result, ok, err, ◌>>=◌, ◌>>◌,
}
use go_containerregistry.Hash.{Hash, sha256}
use go_containerregistry.Platform.Descriptors.{Descriptor, MediaType, hash_eq}
use go_containerregistry.Platform.Hashes.{HashMap, find}
use go_containerregistry.Partial.Objects.{
  Fault, not_computed, History, ConfigFile, Manifest, Layer, Image,
}
use go_containerregistry.Partial.With.{descriptor, digest_of_raw, size_of_raw, config_layer}

pub record Addendum : Type 0 where
  pub layer : Option Layer
  pub history : History
  pub urls : List Str
  pub annotations : List (Str × Str)
  pub media_type : MediaType

-- What `compute` sets.
pub record Computed : Type 0 where
  pub config_file : ConfigFile
  pub manifest : Manifest
  pub diff_id_map : HashMap Layer
  pub digest_map : HashMap Layer

-- `image`: `config_file` is the one it was made with, and `computed` is none until it is computed.
pub record Mutated : Type 0 where
  pub base : Image
  pub adds : List Addendum
  pub config_file : Option ConfigFile
  pub media_type : Option MediaType
  pub computed : Option Computed

-- MediaType
unfoldable pub mutated_media_type : Mutated → Result Fault MediaType
mutated_media_type i = elim (i.media_type) [ some mt ↦ ok mt | none ↦ i.base.media_type ]

-- The history, the diff IDs and the layers by diff ID.
pub record Grown : Type 0 where
  pub history : List History
  pub diff_ids : List Hash
  pub diff_id_map : HashMap Layer

unfoldable pub with_history : Grown → History → Grown
with_history g h = record g { history = g.history ++ h ∷ [] }

-- The first loop of `compute`.
unfoldable pub grow : List Addendum → Grown → Result Fault Grown
unfolding with_history
grow [] g = ok g
grow (add ∷ adds) g = elim (add.layer) [
  | none ↦ grow adds (with_history g add.history)
  | some l ↦ do
    diff_id ← l.diff_id
    grow adds (record (with_history g add.history) {
      diff_ids = g.diff_ids ++ diff_id ∷ [];
      diff_id_map = (diff_id, l) ∷ g.diff_id_map;
    })
]

-- Fields in the addendum override the original descriptor.
unfoldable pub overridden : Addendum → Descriptor → Descriptor
overridden add desc = record desc {
  annotations = elim (add.annotations) [ [] ↦ desc.annotations | a ∷ rest ↦ a ∷ rest ];
  urls = elim (add.urls) [ [] ↦ desc.urls | u ∷ us ↦ u ∷ us ];
  media_type = if not (is_empty add.media_type) then add.media_type else desc.media_type;
}

-- The second loop of `compute`.
unfoldable pub describe :
    List Addendum → List Descriptor → HashMap Layer → Result Fault (List Descriptor × HashMap Layer)
describe [] layers digests = ok (layers, digests)
describe (add ∷ adds) layers digests = elim (add.layer) [
  | none ↦ describe adds layers digests
  | some l ↦ do
    desc ← descriptor l
    describe adds (layers ++ overridden add desc ∷ []) ((desc.digest, l) ∷ digests)
]

-- strings.Contains
unfoldable pub has_infix : Str → Str → Bool
has_infix [] t = is_empty t
has_infix (c ∷ s) t = let rest = has_infix s t in has_prefix (c ∷ s) t || rest

-- The media type of a manifest whose media type is changed to `mt`: OCI leaves it out.
unfoldable pub media_type_for : Option MediaType → MediaType → MediaType
media_type_for none old = old
media_type_for (some mt) old =
    if has_infix mt (codes "vnd.oci")
    then []
    else if has_infix mt (codes "vnd.docker")
    then mt
    else old

-- the config file to start from
unfoldable pub start_config : Mutated → Result Fault ConfigFile
start_config i = elim (i.config_file) [ some c ↦ ok c | none ↦ i.base.config_file ]

module _ (sum : List ℕ → List ℕ) (marshal_config : ConfigFile → List ℕ) where
  -- `manifest.Config.Digest = d` and `manifest.Config.Size = sz`
  unfoldable pub with_config : Manifest → Hash × ℕ → Option MediaType → List Descriptor → Manifest
  with_config m (d, sz) mt layers = record m {
    media_type = media_type_for mt m.media_type;
    config = record m.config { digest = d; size = sz };
    layers = layers;
  }

  -- the end of `compute`, from what its loops give
  unfoldable pub completed :
      Mutated
      → ConfigFile
      → Grown
      → Manifest
      → List Descriptor × HashMap Layer
      → Result Fault Mutated
  completed i cf g m (layers, digests) = do
    let config = record cf { diff_ids = g.diff_ids; history = g.history }
    dsz ← sha256 {E = Fault} sum (ok (marshal_config config))
    ok (record i {
      config_file = some config;
      computed = some (record {
        config_file = config;
        manifest = with_config m dsz i.media_type layers;
        diff_id_map = g.diff_id_map;
        digest_map = digests;
      });
    })

  -- `compute`, by whether it is computed
  unfoldable pub compute_unless : Option Computed → Mutated → Result Fault Mutated
  compute_unless (some c) i = ok i
  compute_unless none i = do
    cf ← start_config i
    g ← grow i.adds (record { history = cf.history; diff_ids = cf.diff_ids; diff_id_map = [] })
    m ← i.base.manifest
    described ← describe i.adds m.layers []
    completed i cf g m described

  unfoldable pub compute : Mutated → Result Fault Mutated
  compute i = compute_unless i.computed i

  unfoldable pub after_compute :
      {A : Type 0}
      → Result Fault Mutated
      → Mutated
      → (Mutated → Result Fault A)
      → Result Fault A × Mutated
  after_compute (ok j) i f = (f j, j)
  after_compute (err e) i f = (err e, i)

  -- A method that computes first: its result, and the image afterwards.
  unfoldable pub computing :
      {A : Type 0} → Mutated → (Mutated → Result Fault A) → Result Fault A × Mutated
  computing i f = after_compute (compute i) i f

-- what is set once the image is computed
unfoldable pub set : {A : Type 0} → (Computed → A) → Mutated → Result Fault A
set f i = elim (i.computed) [ some c ↦ ok (f c) | none ↦ err not_computed ]

found_in : Option Layer → Result Fault Layer → Result Fault Layer
found_in (some l) base = ok l
found_in none base = base

-- LayerByDiffID, which does not compute: the map is nil until a method that does is called
unfoldable pub layer_by_diff_id : Mutated → Hash → Result Fault Layer
unfolding found_in
layer_by_diff_id i h = elim (i.computed) [
  | none ↦ i.base.layer_by_diff_id h
  | some c ↦ found_in (find c.diff_id_map h) (i.base.layer_by_diff_id h)
]

-- The loop of `Layers`.
unfoldable pub layers_by_diff_id : Mutated → List Hash → Result Fault (List Layer)
layers_by_diff_id i [] = ok []
layers_by_diff_id i (h ∷ hs) = do l ← layer_by_diff_id i h; ls ← layers_by_diff_id i hs; ok (l ∷ ls)

-- `append(layers, add.Layer)` for each addendum; a layer that is nil is `none`
added : List Addendum → List (Option Layer)
added [] = []
added (add ∷ adds) = add.layer ∷ added adds

is_not_computed : Fault → Bool
is_not_computed not_computed = true
is_not_computed _ = false

present : List Layer → List (Option Layer)
present [] = []
present (l ∷ ls) = some l ∷ present ls

module _ (sum : List ℕ → List ℕ) (marshal_config : ConfigFile → List ℕ) where
  -- ConfigFile
  unfoldable pub config_file : Mutated → Result Fault ConfigFile × Mutated
  config_file i = computing sum marshal_config i (set (λ c. c.config_file))

  -- Manifest
  unfoldable pub manifest : Mutated → Result Fault Manifest × Mutated
  manifest i = computing sum marshal_config i (set (λ c. c.manifest))

  -- RawConfigFile
  unfoldable pub raw_config_file : Mutated → Result Fault (List ℕ) × Mutated
  raw_config_file i = computing sum marshal_config i (set (λ c. marshal_config c.config_file))

  -- ConfigName
  unfoldable pub config_name : Mutated → Result Fault Hash × Mutated
  config_name i =
      computing sum marshal_config i
        (λ j. digest_of_raw sum (set (λ c. marshal_config c.config_file) j))

  -- the streamed layers and those of a computed image
  layers_after : Mutated → Result Fault Mutated → Result Fault (List (Option Layer)) × Mutated
  unfolding added is_not_computed present
  layers_after i (ok j) =
      (do c ← set (λ c. c.config_file) j; ls ← layers_by_diff_id j c.diff_ids; ok (present ls), j)
  layers_after i (err e) = (
    if is_not_computed e then (do ls ← i.base.layers; ok (present ls ++ added i.adds)) else err e,
    i,
  )

  -- Layers; a layer that has not been streamed makes `compute` fail with ErrNotComputed
  unfoldable pub layers : Mutated → Result Fault (List (Option Layer)) × Mutated
  unfolding layers_after
  layers i = layers_after i (compute sum marshal_config i)

  -- what LayerByDigest returns for a hash that is not the config's
  by_digest : Mutated → Hash → Result Fault Layer
  unfolding found_in
  by_digest i h = do
    digests ← set (λ c. c.digest_map) i
    found_in (find digests h) (i.base.layer_by_digest h)

  -- LayerByDigest
  unfoldable pub layer_by_digest : Mutated → Hash → Result Fault Layer × Mutated
  unfolding by_digest
  layer_by_digest i h = computing sum marshal_config i (λ j. do
    cn ← digest_of_raw sum (set (λ c. marshal_config c.config_file) j)
    if hash_eq h cn
        then config_layer sum (set (λ c. marshal_config c.config_file) j)
        else by_digest j h)

  module _ (marshal_manifest : Manifest → List ℕ) where
    -- RawManifest
    unfoldable pub raw_manifest : Mutated → Result Fault (List ℕ) × Mutated
    raw_manifest i = computing sum marshal_config i (set (λ c. marshal_manifest c.manifest))

    -- Digest
    unfoldable pub digest : Mutated → Result Fault Hash × Mutated
    digest i =
        computing sum marshal_config i
          (λ j. digest_of_raw sum (set (λ c. marshal_manifest c.manifest) j))

    -- Size
    unfoldable pub size : Mutated → Result Fault ℕ × Mutated
    size i =
        computing sum marshal_config i (λ j. size_of_raw (set (λ c. marshal_manifest c.manifest) j))
