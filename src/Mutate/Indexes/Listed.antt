-- ===== src/Mutate/Indexes/Listed.antt =====
-- What the manifest of a mutated index of pkg/v1/mutate/index.go lists.
use go_containerregistry.Prelude.{
  ◌≡◌, refl, sym, ap, ◌∙◌, List, [], ◌∷◌, ◌++◌, append_assoc, append-nil, none, some, Result, ok,
  err, err-ne-ok,
}
use go_containerregistry.Platform.Descriptors.{Descriptor}
use go_containerregistry.Partial.Objects.{Fault, IndexManifest}
use go_containerregistry.Mutate.Images.{media_type_for}
use go_containerregistry.Mutate.Indexes.{
  Child, IndexAddendum, MutatedIndex, compute_descriptor, Added, added_to, add_all, with_maps,
  finished, computed_from, compute_index_unless, compute_index,
}

module _ {Idx Img : Type 0} where
  -- The descriptors that the addendums are computed to, in order.
  pub data AreDescribed : List (IndexAddendum Idx Img) → List Descriptor → Type 0 where
    none_left : AreDescribed [] []
    one_more :
        {ia : IndexAddendum Idx Img} {ias : List (IndexAddendum Idx Img)} {d : Descriptor}
        {ds : List Descriptor}
        → compute_descriptor ia ≡ ok d
        → AreDescribed ias ds
        → AreDescribed (ia ∷ ias) (d ∷ ds)

  added_to-ok :
      (r : Result Fault Descriptor) (child : Child Idx Img) (a b : Added Idx Img)
      (again : Added Idx Img → Result Fault Unit × Added Idx Img)
      → added_to r child a again ≡ (ok tt, b)
      → (d : Descriptor) × (c : Added Idx Img) × (r ≡ ok d)
        × (c.manifests ≡ a.manifests ++ d ∷ [])
        × (again c ≡ (ok tt, b))
  unfolding added_to
  added_to-ok (err e) child a b again h = absurd (err-ne-ok (ap (λ x. x.0) h))
  added_to-ok (ok d) child a b again h = (d, _, refl, refl, h)

  add_all-AreDescribed :
      (ias : List (IndexAddendum Idx Img)) (a b : Added Idx Img)
      → add_all ias a ≡ (ok tt, b)
      → (ds : List Descriptor) × AreDescribed ias ds × (b.manifests ≡ a.manifests ++ ds)
  unfolding add_all
  add_all-AreDescribed [] a b h =
      ([], none_left, sym (ap (λ x. x.1.manifests) h) ∙ sym (append-nil a.manifests))
  add_all-AreDescribed (ia ∷ ias) a b h =
      let (d, c, e, f, h1) =
        added_to-ok (compute_descriptor ia) ia.add a b (λ x. add_all ias x) h in
      let (ds, all, q) = add_all-AreDescribed ias c b h1 in
      (d ∷ ds, one_more e all, q ∙ ap (λ x. x ++ ds) f ∙ append_assoc a.manifests (d ∷ []) ds)

  -- What the manifest of a computed index consists of.
  pub record IsListed (i : MutatedIndex Idx Img) (n : IndexManifest) : Type 0 where
    pub m : IndexManifest
    pub ds : List Descriptor
    pub m_eq : i.base.index_manifest ≡ ok m
    pub described : AreDescribed i.adds ds
    pub manifests : n.manifests ≡ m.manifests ++ ds
    pub media_type : n.media_type ≡ media_type_for i.media_type m.media_type

  finished-IsListed :
      (i j : MutatedIndex Idx Img) (m : IndexManifest) (o : Result Fault Unit × Added Idx Img)
      → i.base.index_manifest ≡ ok m
      → ((b : Added Idx Img)
          → o ≡ (ok tt, b)
          → (ds : List Descriptor) × AreDescribed i.adds ds × (b.manifests ≡ m.manifests ++ ds))
      → finished i m o ≡ (ok tt, j)
      → (n : IndexManifest) × (j.manifest ≡ some n) × IsListed i n
  unfolding finished with_maps
  finished-IsListed i j m (err e, a) r k h = absurd (err-ne-ok (ap (λ x. x.0) h))
  finished-IsListed i j m (ok u, a) r k h =
      let (ds, all, q) = k a refl in
      (
        _,
        sym (ap (λ x. x.1.manifest) h),
        record { m = m; ds = ds; m_eq = r; described = all; manifests = q; media_type = refl },
      )

  computed_from-IsListed :
      (i j : MutatedIndex Idx Img) (r : Result Fault IndexManifest)
      → i.base.index_manifest ≡ r
      → computed_from i r ≡ (ok tt, j)
      → (n : IndexManifest) × (j.manifest ≡ some n) × IsListed i n
  unfolding computed_from
  computed_from-IsListed i j (err e) q h = absurd (err-ne-ok (ap (λ x. x.0) h))
  computed_from-IsListed i j (ok m) q h =
      finished-IsListed i j m _ q (λ b e. add_all-AreDescribed i.adds _ b e) h

  -- Computing an index that is not computed, where it returns no error, lists the manifests of the
  -- base and behind them, in order, the descriptors of the addendums. Its media type is that of the
  -- base, changed as the one of an image's manifest is.
  pub compute_index-IsListed :
      (i j : MutatedIndex Idx Img)
      → i.manifest ≡ none
      → compute_index i ≡ (ok tt, j)
      → (n : IndexManifest) × (j.manifest ≡ some n) × IsListed i n
  unfolding compute_index compute_index_unless
  compute_index-IsListed i j c h =
      computed_from-IsListed i j i.base.index_manifest refl
        (ap (λ o. compute_index_unless o i) (sym c) ∙ h)
