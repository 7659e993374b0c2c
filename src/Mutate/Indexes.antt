-- ===== src/Mutate/Indexes.antt =====
-- pkg/v1/mutate/index.go: an index with addendums, computed when a method needs it. A method takes
-- the index to its result and to the index afterwards. `marshal` is json.Marshal of a manifest.
pub mod Listed
mod Examples
use go_containerregistry.Prelude.{
  ℕ, Bool, true, false, not, List, [], ◌∷◌, ◌++◌, Option, none, some, Str, is_empty, ◌==◌,
  if◌then◌else◌, Result, ok, err, ◌>>=◌,
}
use go_containerregistry.Hash.{Hash}
use go_containerregistry.Platform.Descriptors.{Descriptor, MediaType}
use go_containerregistry.Platform.Hashes.{HashMap, find}
use go_containerregistry.Partial.Objects.{Fault, not_computed, IndexManifest}
use go_containerregistry.Partial.With.{digest_of_raw, size_of_raw}
use go_containerregistry.Mutate.Images.{media_type_for}

-- What is added: an index, an image, or another object with a descriptor.
pub data Child (Idx Img : Type 0) : Type 0 where
  an_index : Idx → Child Idx Img
  an_image : Img → Child Idx Img
  another : Child Idx Img

-- `described` is the descriptor that partial.Descriptor returns for what is added.
pub record IndexAddendum (Idx Img : Type 0) : Type 0 where
  pub add : Child Idx Img
  pub described : Result Fault Descriptor
  pub descriptor : Descriptor

pub record BaseIndex (Idx Img : Type 0) : Type 0 where
  pub media_type : Result Fault MediaType
  pub index_manifest : Result Fault IndexManifest
  pub image : Hash → Result Fault Img
  pub image_index : Hash → Result Fault Idx

pub record MutatedIndex (Idx Img : Type 0) : Type 0 where
  pub base : BaseIndex Idx Img
  pub adds : List (IndexAddendum Idx Img)
  pub media_type : Option MediaType
  pub manifest : Option IndexManifest
  pub image_map : HashMap Img
  pub index_map : HashMap Idx

unfoldable pub is_zero_hash : Hash → Bool
is_zero_hash h = elim (h.algorithm) [ [] ↦ is_empty h.hex | c ∷ cs ↦ false ]

-- The addendum overrides the fields of the descriptor that it has.
unfoldable pub overridden_by : Descriptor → Descriptor → Descriptor
overridden_by o desc = record {
  media_type = if not (is_empty o.media_type) then o.media_type else desc.media_type;
  size = if o.size == 0 then desc.size else o.size;
  digest = if is_zero_hash o.digest then desc.digest else o.digest;
  urls = elim (o.urls) [ [] ↦ desc.urls | u ∷ us ↦ u ∷ us ];
  annotations = elim (o.annotations) [ [] ↦ desc.annotations | a ∷ rest ↦ a ∷ rest ];
  platform = elim (o.platform) [ none ↦ desc.platform | some p ↦ some p ];
}

unfoldable pub found_or_base : {A : Type 0} → Option A → Result Fault A → Result Fault A
found_or_base (some a) base = ok a
found_or_base none base = base

-- What the loop of `compute` has made so far.
pub record Added (Idx Img : Type 0) : Type 0 where
  pub manifests : List Descriptor
  pub images : HashMap Img
  pub indexes : HashMap Idx

module _ {Idx Img : Type 0} where
  -- computeDescriptor
  unfoldable pub compute_descriptor : IndexAddendum Idx Img → Result Fault Descriptor
  compute_descriptor ia = do desc ← ia.described; ok (overridden_by ia.descriptor desc)

  unfoldable pub add_image : Child Idx Img → Hash → HashMap Img → HashMap Img
  add_image (an_image img) h m = (h, img) ∷ m
  add_image _ h m = m

  unfoldable pub add_index : Child Idx Img → Hash → HashMap Idx → HashMap Idx
  add_index (an_index idx) h m = (h, idx) ∷ m
  add_index _ h m = m

  -- What follows the descriptor of an addendum in the loop, of which `again` is the rest.
  unfoldable pub added_to :
      Result Fault Descriptor
      → Child Idx Img
      → Added Idx Img
      → (Added Idx Img → Result Fault Unit × Added Idx Img)
      → Result Fault Unit × Added Idx Img
  added_to (err e) child a again = (err e, a)
  added_to (ok desc) child a again = again (record {
    manifests = a.manifests ++ desc ∷ [];
    images = add_image child desc.digest a.images;
    indexes = add_index child desc.digest a.indexes;
  })

  -- The loop of `compute`, with what it has made when it ends.
  unfoldable pub add_all :
      List (IndexAddendum Idx Img) → Added Idx Img → Result Fault Unit × Added Idx Img
  unfolding added_to
  add_all [] a = (ok tt, a)
  add_all (ia ∷ ias) a = added_to (compute_descriptor ia) ia.add a (λ b. add_all ias b)

  unfoldable pub with_maps : MutatedIndex Idx Img → Added Idx Img → MutatedIndex Idx Img
  with_maps i a = record i { image_map = a.images; index_map = a.indexes }

  unfoldable pub finished :
      MutatedIndex Idx Img
      → IndexManifest
      → Result Fault Unit × Added Idx Img
      → Result Fault Unit × MutatedIndex Idx Img
  finished i m (err e, a) = (err e, with_maps i a)
  finished i m (ok u, a) = (
    ok tt,
    record (with_maps i a) {
      manifest = some (record m {
        manifests = a.manifests;
        media_type = media_type_for i.media_type m.media_type;
      });
    },
  )

  unfoldable pub computed_from :
      MutatedIndex Idx Img → Result Fault IndexManifest → Result Fault Unit × MutatedIndex Idx Img
  unfolding finished
  computed_from i (err e) = (err e, record i { image_map = []; index_map = [] })
  computed_from i (ok m) =
      finished i m (add_all i.adds (record { manifests = m.manifests; images = []; indexes = [] }))

  unfoldable pub compute_index_unless :
      Option IndexManifest → MutatedIndex Idx Img → Result Fault Unit × MutatedIndex Idx Img
  unfolding computed_from
  compute_index_unless (some m) i = (ok tt, i)
  compute_index_unless none i = computed_from i i.base.index_manifest

  -- compute; one that fails leaves in the maps what it has put there
  unfoldable pub compute_index : MutatedIndex Idx Img → Result Fault Unit × MutatedIndex Idx Img
  unfolding compute_index_unless
  compute_index i = compute_index_unless i.manifest i

  -- Image and ImageIndex, which do not compute
  unfoldable pub image : MutatedIndex Idx Img → Hash → Result Fault Img
  image i h = found_or_base (find i.image_map h) (i.base.image h)

  unfoldable pub image_index : MutatedIndex Idx Img → Hash → Result Fault Idx
  image_index i h = found_or_base (find i.index_map h) (i.base.image_index h)

  unfoldable pub manifest_of : MutatedIndex Idx Img → Result Fault IndexManifest
  manifest_of i = elim (i.manifest) [ some m ↦ ok m | none ↦ err not_computed ]

  -- a method that computes first: its result, and the index afterwards
  unfoldable pub after_index :
      {A : Type 0}
      → Result Fault Unit × MutatedIndex Idx Img
      → (MutatedIndex Idx Img → Result Fault A)
      → Result Fault A × MutatedIndex Idx Img
  after_index (ok u, j) f = (f j, j)
  after_index (err e, j) f = (err e, j)

  -- IndexManifest
  unfoldable pub index_manifest :
      MutatedIndex Idx Img → Result Fault IndexManifest × MutatedIndex Idx Img
  index_manifest i = after_index (compute_index i) manifest_of

  module _ (sum : List ℕ → List ℕ) (marshal : IndexManifest → List ℕ) where
    unfoldable pub raw_of : MutatedIndex Idx Img → Result Fault (List ℕ)
    raw_of i = do m ← manifest_of i; ok (marshal m)

    -- RawManifest
    unfoldable pub raw_index_manifest :
        MutatedIndex Idx Img → Result Fault (List ℕ) × MutatedIndex Idx Img
    raw_index_manifest i = after_index (compute_index i) raw_of

    -- Digest
    unfoldable pub index_digest : MutatedIndex Idx Img → Result Fault Hash × MutatedIndex Idx Img
    index_digest i = after_index (compute_index i) (λ j. digest_of_raw sum (raw_of j))
