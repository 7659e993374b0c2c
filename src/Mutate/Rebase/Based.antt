-- ===== src/Mutate/Rebase/Based.antt =====
-- What `Rebase` accepts and what it builds, and what becomes of images with no history.
use go_containerregistry.Prelude.{
  ◌↔◌, ℕ, zero, suc, ◌+◌, ◌-◌, ◌≤◌, ◌≡◌, refl, sym, ap, ◌∙◌, true, List, [], ◌∷◌, ◌++◌,
  append_assoc, append-nil, none, some, length, leb, if◌then◌else◌, Bool-cases, inl, inr, ok, err,
  >>=-eq-ok, arith,
}
use Prim.Native.Nat.{max}
use go_containerregistry.Hash.{Hash}
use go_containerregistry.Platform.Descriptors.{hash_eq}
use go_containerregistry.Platform.Hashes.{hash_eq→eq, hash_eq_refl}
use go_containerregistry.Mutate.Rebase.{
  History, zero_history, Layer, Addendum, Image, ConfigFile, Rebased, layer_mismatch, history_loop,
  remaining_loop, create_addendums, validate, append, same_layers, check_based_on, rebase,
}
use go_containerregistry.Mutate.Rebase.Stacks.{
  IsStack, done, bare, layered, create_addendums-stack, create_addendums-whole,
}

abbrev pub replicate : ℕ → Addendum → List Addendum
replicate zero a = []
replicate (suc n) a = a ∷ replicate n a

abbrev pub no_history : Layer → Addendum
no_history l = record { layer = some l; history = zero_history }

remaining_loop-copies :
    (sl count i n : ℕ) (l : Layer) (adds : List Addendum)
    → n + max i sl ≡ max (i + count) sl
    → remaining_loop sl count i l adds ≡ adds ++ replicate n (no_history l)
unfolding remaining_loop
remaining_loop-copies sl zero i zero l adds h = sym (append-nil adds)
remaining_loop-copies sl zero i (suc n) l adds h = absurd (omega arith)
remaining_loop-copies sl (suc count) i zero l adds h = elim (Bool-cases (leb sl i)) [
  | inl e ↦ absurd (ground arith)
  | inr e ↦ rw e (remaining_loop-copies sl count (i + 1) zero l adds (ground arith))
]
remaining_loop-copies sl (suc count) i (suc n) l adds h = elim (Bool-cases (leb sl i)) [
  | inl e ↦ rw e (
      remaining_loop-copies sl count (i + 1) n l (adds ++ no_history l ∷ []) (ground arith)
      ∙ append_assoc adds (no_history l ∷ []) (replicate n (no_history l)))
  | inr e ↦ rw e (remaining_loop-copies sl count (i + 1) (suc n) l adds (ground arith))
]

-- An image with layers and no history: `createAddendums` repeats the first layer, and from
-- `startLayer` on, once for each layer, instead of appending the layers.
pub create_addendums-no_history :
    (start_history start_layer : ℕ) (l : Layer) (ls : List Layer)
    → create_addendums start_history start_layer [] (l ∷ ls)
      ≡ ok (replicate (length (l ∷ ls) - start_layer) (no_history l))
unfolding create_addendums history_loop
create_addendums-no_history sh sl l ls =
    let whole : length (l ∷ ls) - 0 ≡ length (l ∷ ls) = omega arith in
    rw whole (
      ap ok
        (remaining_loop-copies sl (length (l ∷ ls)) 0 (length (l ∷ ls) - sl) l [] (omega arith)))

-- The layers of the first list have the digests of the first layers of the second.
abbrev pub SameDigests : List Layer → List Layer → Type 0
SameDigests [] orig = Unit
SameDigests (l ∷ old) [] = ⊥
SameDigests (l ∷ old) (o ∷ orig) =
    ((d : Hash) × (l.digest ≡ ok d) × (o.digest ≡ ok d)) × SameDigests old orig

same_digest :
    (i : ℕ) (d e : Hash) (l o : Layer) (old orig : List Layer)
    → l.digest ≡ ok d
    → o.digest ≡ ok e
    → (same_layers (i + 1) old orig ≡ ok tt → SameDigests old orig)
    → (if hash_eq d e then same_layers (i + 1) old orig else err (layer_mismatch i)) ≡ ok tt
    → SameDigests (l ∷ old) (o ∷ orig)
same_digest i d e l o old orig hd he later h = elim (Bool-cases (hash_eq d e)) [
  | inl q ↦ ((d, hd, rw (hash_eq→eq d e q) he), later (rw q at h))
  | inr q ↦ cc (rw q at h)
]

same_layers-SameDigests :
    (i : ℕ) (old orig : List Layer) → same_layers i old orig ≡ ok tt → SameDigests old orig
unfolding same_layers
same_layers-SameDigests i [] orig h = tt
same_layers-SameDigests i (l ∷ old) [] h = cc
same_layers-SameDigests i (l ∷ old) (o ∷ orig) h =
    let (d, h1, hd) = >>=-eq-ok l.digest _ h in
    let (e, h2, he) = >>=-eq-ok o.digest _ h1 in
    same_digest i d e l o old orig hd he (same_layers-SameDigests (i + 1) old orig) h2

SameDigests-same_layers :
    (i : ℕ) (old orig : List Layer) → SameDigests old orig → same_layers i old orig ≡ ok tt
unfolding same_layers
SameDigests-same_layers i [] orig h = refl
SameDigests-same_layers i (l ∷ old) [] h = elim h [ ]
SameDigests-same_layers i (l ∷ old) (o ∷ orig) ((d, hd, he), hs) =
    simp (hd, he, hash_eq_refl) (SameDigests-same_layers (i + 1) old orig hs)

SameDigests-length : (old orig : List Layer) → SameDigests old orig → length old ≤ length orig
SameDigests-length [] orig h = omega arith
SameDigests-length (l ∷ old) [] h = elim h [ ]
SameDigests-length (l ∷ old) (o ∷ orig) h = omega (arith, SameDigests-length old orig h.1)

loop_of_check :
    (old orig : List Layer) → check_based_on old orig ≡ ok tt → same_layers 0 old orig ≡ ok tt
unfolding check_based_on
loop_of_check old orig h = ground arith

check_of_loop :
    (old orig : List Layer)
    → length old ≤ length orig
    → same_layers 0 old orig ≡ ok tt
    → check_based_on old orig ≡ ok tt
unfolding check_based_on
check_of_loop old orig n h = ground arith

-- The test of `Rebase` passes exactly if the old base's layers have the digests of the original
-- image's first layers.
pub check_based_on_iff :
    (old orig : List Layer) → (check_based_on old orig ≡ ok tt) ↔ SameDigests old orig
check_based_on_iff old orig = (
  λ h. same_layers-SameDigests 0 old orig (loop_of_check old orig h),
  λ s.
      check_of_loop old orig (SameDigests-length old orig s) (SameDigests-same_layers 0 old orig s),
)

validate-bare :
    (h : History) (adds : List Addendum)
    → h.empty_layer ≡ true
    → validate adds ≡ ok tt
    → validate (record { layer = none; history = h } ∷ adds) ≡ ok tt
unfolding validate
validate-bare h adds e v = ground arith

validate-layer :
    (h : History) (l : Layer) (adds : List Addendum)
    → validate adds ≡ ok tt
    → validate (record { layer = some l; history = h } ∷ adds) ≡ ok tt
unfolding validate
validate-layer h l adds v = v

-- The addendums of a stack pass `validate`.
validate-stack :
    {hs : List History} {ls : List Layer} {adds : List Addendum}
    → IsStack hs ls adds
    → validate adds ≡ ok tt
validate-stack done = unfold validate in refl
validate-stack (bare {hs} {ls} {adds} h e s) = validate-bare h adds e (validate-stack s)
validate-stack (layered {hs} {ls} {adds} h l e s) = validate-layer h l adds (validate-stack s)

append-valid :
    (r : Rebased) (adds : List Addendum)
    → validate adds ≡ ok tt
    → append r adds ≡ ok (record r { adds = r.adds ++ adds })
unfolding append
append-valid r [] h = ap (λ x. ok (record r { adds = x })) (sym (append-nil r.adds))
append-valid r (a ∷ adds) h = rw h

-- What the three images of a rebase consist of: the original image stands on the old base, in its
-- layers and in its history, and each history has its layers.
pub record IsBased (orig old_base new_base : Image) (below above : List Addendum) : Type 0 where
  pub old_layers : List Layer
  pub base_layers : List Layer
  pub top_layers : List Layer
  pub new_layers : List Layer
  pub old_config : ConfigFile
  pub orig_config : ConfigFile
  pub new_config : ConfigFile
  pub top : List History
  pub covered : List Addendum
  pub orig_layers_eq : orig.layers ≡ ok (base_layers ++ top_layers)
  pub old_layers_eq : old_base.layers ≡ ok old_layers
  pub new_layers_eq : new_base.layers ≡ ok new_layers
  pub orig_config_eq : orig.config_file ≡ ok orig_config
  pub old_config_eq : old_base.config_file ≡ ok old_config
  pub new_config_eq : new_base.config_file ≡ ok new_config
  pub same_count : length old_layers ≡ length base_layers
  pub same_digests : SameDigests old_layers (base_layers ++ top_layers)
  pub history_eq : orig_config.history ≡ old_config.history ++ top
  pub base_stack : IsStack old_config.history base_layers covered
  pub top_stack : IsStack top top_layers above
  pub new_stack : IsStack new_config.history new_layers below

-- Where all the images can be read, the original stands on the old base in its layers and in its
-- history, and each history has its layers: rebasing keeps the original's configuration, takes the
-- new base's system, its version and its architecture, and puts the layers and history above the
-- old base on those of the new base.
pub rebase_lem :
    (orig old_base new_base : Image) (below above : List Addendum)
    → (b : IsBased orig old_base new_base below above)
    → rebase orig old_base new_base
      ≡ ok (record {
        architecture = b.new_config.architecture;
        os = b.new_config.os;
        os_version = b.new_config.os_version;
        config = b.orig_config.config;
        adds = below ++ above;
      })
unfolding rebase
rebase_lem orig old_base new_base below above b = simp (
  b.orig_layers_eq,
  b.old_layers_eq,
  (check_based_on_iff b.old_layers (b.base_layers ++ b.top_layers)).1 b.same_digests,
  b.old_config_eq,
  b.orig_config_eq,
  b.new_config_eq,
  b.new_layers_eq,
  create_addendums-whole b.new_stack,
  append-valid _ below (validate-stack b.new_stack),
  b.history_eq,
  b.same_count,
  create_addendums-stack b.base_stack b.top_stack,
  append-valid _ above (validate-stack b.top_stack),
)
