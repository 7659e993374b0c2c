-- ===== src/Prelude/Splitting.antt =====
-- Laws of `split`, `join` and `cut`.
use Prim.Native.Nat.{ℕ, ◌<◌}
use mathlib.Core.Path.{◌≡◌, refl, sym, ap, ◌∙◌}
use mathlib.Core.Logic.{◌≢◌, inl, inr}
use mathlib.Core.List.{List, [], ◌∷◌, ◌++◌, append_assoc}
use mathlib.Core.Bool.{false, ◌||◌}
use mathlib.Core.Option.{Option, none, some}
use native.Mathlib.Omega.{arith}
use go_containerregistry.Prelude.Tests.{◌==◌, if◌then◌else◌, Bool-cases}
use go_containerregistry.Prelude.Lists.{length, last_or, drop_last}
use go_containerregistry.Prelude.Texts.{Str, contains, split, join, push_front}

-- strings.SplitN(s, sep, 2): `none` stands for a slice of one part
unfoldable pub cut : Str → ℕ → Option (Str × Str)
cut [] sep = none
cut (c ∷ s) sep =
    let rest = cut s sep in
    if c == sep then some ([], s) else elim rest [ none ↦ none | some (a, b) ↦ some (c ∷ a, b) ]

pub contains-append : (s t : Str) (c : ℕ) → contains (s ++ t) c ≡ (contains s c || contains t c)
unfolding contains
contains-append [] t c = refl
contains-append (x ∷ s) t c = ground (arith, contains-append s t c)

pub cut-append :
    (a b : Str) (sep : ℕ) → contains a sep ≡ false → cut (a ++ sep ∷ b) sep ≡ some (a, b)
unfolding contains cut
cut-append [] b sep h = ground arith
cut-append (c ∷ a) b sep h = ground (arith, cut-append a b sep)

pub cut-eq-some :
    (s : Str) (sep : ℕ) (a b : Str)
    → cut s sep ≡ some (a, b)
    → (s ≡ a ++ sep ∷ b) × (contains a sep ≡ false)
unfolding cut contains
cut-eq-some [] sep a b h = cc
cut-eq-some (c ∷ s) sep [] b h = ground (arith, cut-eq-some s sep [] b)
cut-eq-some (c ∷ s) sep (x ∷ a) b h = ground (arith, cut-eq-some s sep a b)

pub cut-eq-none : (s : Str) (sep : ℕ) → contains s sep ≡ false → cut s sep ≡ none
unfolding cut contains
cut-eq-none [] sep h = refl
cut-eq-none (c ∷ s) sep h = ground (arith, cut-eq-none s sep)

push_front-ne-nil : (c : ℕ) (ps : List Str) → push_front c ps ≢ []
push_front-ne-nil c [] = λ e. cc
push_front-ne-nil c (p ∷ ps) = λ e. cc

pub split-ne-nil : (s : Str) (sep : ℕ) → split s sep ≢ []
unfolding split
split-ne-nil [] sep = λ e. cc
split-ne-nil (c ∷ s) sep = ground (arith, push_front-ne-nil c (split s sep))

join-push_front : (c sep : ℕ) (ps : List Str) → join (push_front c ps) sep ≡ c ∷ join ps sep
unfolding join
join-push_front c sep [] = refl
join-push_front c sep (p ∷ []) = refl
join-push_front c sep (p ∷ q ∷ ps) = refl

join-nil_cons : (sep : ℕ) (ps : List Str) → ps ≢ [] → join ([] ∷ ps) sep ≡ sep ∷ join ps sep
unfolding join
join-nil_cons sep [] h = absurd (h refl)
join-nil_cons sep (p ∷ ps) h = refl

pub join-split : (s : Str) (sep : ℕ) → join (split s sep) sep ≡ s
unfolding split
join-split [] sep = unfold join in refl
join-split (c ∷ s) sep = ground (
  arith,
  join-split s sep,
  join-push_front c sep (split s sep),
  join-nil_cons sep (split s sep) (split-ne-nil s sep),
)

pub split-lacks : (s : Str) (sep : ℕ) → contains s sep ≡ false → split s sep ≡ s ∷ []
unfolding split contains
split-lacks [] sep h = refl
split-lacks (c ∷ s) sep h = ground (arith, split-lacks s sep)

push_front-append :
    (c : ℕ) (ps qs : List Str) → ps ≢ [] → push_front c (ps ++ qs) ≡ push_front c ps ++ qs
push_front-append c [] qs h = absurd (h refl)
push_front-append c (p ∷ ps) qs h = refl

pub split-append :
    (a b : Str) (sep : ℕ)
    → contains b sep ≡ false
    → split (a ++ sep ∷ b) sep ≡ split a sep ++ b ∷ []
unfolding split
split-append [] b sep h = ground (arith, split-lacks b sep h)
split-append (c ∷ a) b sep h =
    ground (
      arith,
      split-append a b sep h,
      push_front-append c (split a sep) (b ∷ []) (split-ne-nil a sep),
    )

pub join-concat :
    (ps : List Str) (b : Str) (sep : ℕ) → ps ≢ [] → join (ps ++ b ∷ []) sep ≡ join ps sep ++ sep ∷ b
unfolding join
join-concat [] b sep h = absurd (h refl)
join-concat (p ∷ []) b sep h = refl
join-concat (p ∷ q ∷ ps) b sep h =
    ap (λ t. p ++ sep ∷ t) (join-concat (q ∷ ps) b sep (λ e. cc))
    ∙ sym (append_assoc p (sep ∷ join (q ∷ ps) sep) (sep ∷ b))

-- a slice with two parts or more is its beginning and its last part
concat-last :
    (p q : Str) (ps : List Str)
    → drop_last (p ∷ q ∷ ps) ++ last_or [] (p ∷ q ∷ ps) ∷ [] ≡ p ∷ q ∷ ps
concat-last p q [] = refl
concat-last p q (r ∷ ps) = ap (λ t. p ∷ t) (concat-last q r ps)

join-last :
    (ps : List Str) (sep : ℕ)
    → 1 < length ps
    → join ps sep ≡ join (drop_last ps) sep ++ sep ∷ last_or [] ps
join-last [] sep h = absurd (omega arith)
join-last (p ∷ []) sep h = absurd (omega arith)
join-last (p ∷ q ∷ ps) sep h =
    ap (λ t. join t sep) (sym (concat-last p q ps))
    ∙ join-concat (drop_last (p ∷ q ∷ ps)) (last_or [] (p ∷ q ∷ ps)) sep (drop-ne-nil ps)
  where
    drop-ne-nil : (qs : List Str) → drop_last (p ∷ q ∷ qs) ≢ []
    drop-ne-nil qs = λ e. cc

-- What the program does with `parts[:len(parts)-1]` and `parts[len(parts)-1]`.
pub split_last :
    (s : Str) (sep : ℕ)
    → 1 < length (split s sep)
    → s ≡ join (drop_last (split s sep)) sep ++ sep ∷ last_or [] (split s sep)
split_last s sep h = sym (join-split s sep) ∙ join-last (split s sep) sep h

push_front_parts :
    (c sep : ℕ) (ps : List Str)
    → (c == sep) ≡ false
    → ps ≢ []
    → contains (last_or [] (push_front c ps)) sep ≡ contains (last_or [] ps) sep
unfolding contains
push_front_parts c sep [] h n = absurd (n refl)
push_front_parts c sep (p ∷ []) h n = rw h
push_front_parts c sep (p ∷ q ∷ ps) h n = refl

last-cons : (ps : List Str) → ps ≢ [] → last_or {A = Str} [] ([] ∷ ps) ≡ last_or [] ps
last-cons [] h = refl
last-cons (p ∷ ps) h = refl

pub last-split-lacks : (s : Str) (sep : ℕ) → contains (last_or [] (split s sep)) sep ≡ false
unfolding split
last-split-lacks [] sep = unfold contains in refl
last-split-lacks (c ∷ s) sep = elim (Bool-cases (c == sep)) [
  | inl e ↦ rw (e, last-cons (split s sep) (split-ne-nil s sep)) (last-split-lacks s sep)
  | inr e ↦
      rw (e, push_front_parts c sep (split s sep) e (split-ne-nil s sep)) (last-split-lacks s sep)
]
