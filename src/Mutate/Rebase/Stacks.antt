-- ===== src/Mutate/Rebase/Stacks.antt =====
-- Which addendums a history and its layers give. The entries of a history that are not empty stand
-- for the layers, in order.
use native.Mathlib.Nat.{add-zero}
use go_containerregistry.Prelude.{
  ℕ, suc, ◌+◌, ◌≤◌, ◌<◌, ◌≡◌, refl, ◌∙◌, true, false, List, [], ◌∷◌, ◌++◌, append_assoc, append-nil,
  Option, none, some, length, length-append, get_elem?, get_elem?-append, get_elem?-length, ok,
  arith,
}
use go_containerregistry.Mutate.Rebase.{
  History, Layer, Addendum, is_above, entry, history_loop, after_history, create_addendums,
}

-- A history with its layers, and the addendums that they stand for: an entry that is not empty
-- takes the next layer.
pub data IsStack : List History → List Layer → List Addendum → Type 0 where
  done : IsStack [] [] []
  bare :
      {hs : List History} {ls : List Layer} {adds : List Addendum} (h : History)
      → h.empty_layer ≡ true
      → IsStack hs ls adds
      → IsStack (h ∷ hs) ls (record { layer = none; history = h } ∷ adds)
  layered :
      {hs : List History} {ls : List Layer} {adds : List Addendum} (h : History) (l : Layer)
      → h.empty_layer ≡ false
      → IsStack hs ls adds
      → IsStack (h ∷ hs) (l ∷ ls) (record { layer = some l; history = h } ∷ adds)

bare_step :
    (sh sl hi li : ℕ) (h : History) (hs : List History) (layers : List Layer) (adds : List Addendum)
    → h.empty_layer ≡ true
    → history_loop sh sl hi li (h ∷ hs) layers adds
      ≡ history_loop sh sl (hi + 1) li hs layers (entry (is_above sh sl hi li) adds none h)
unfolding history_loop
bare_step sh sl hi li h hs layers adds e = ground arith

layer_step :
    (sh sl hi li : ℕ) (h : History) (hs : List History) (layers : List Layer) (l : Layer)
    (adds : List Addendum)
    → h.empty_layer ≡ false
    → get_elem? layers li ≡ some l
    → history_loop sh sl hi li (h ∷ hs) layers adds
      ≡ history_loop sh sl
          (hi + 1)
          (li + 1)
          hs
          layers
          (entry (is_above sh sl hi (li + 1)) adds (some l) h)
unfolding history_loop
layer_step sh sl hi li h hs layers l adds e g = ground arith

above_start : (sh sl hi li : ℕ) → sh ≤ hi → is_above sh sl hi li ≡ true
unfolding is_above
above_start sh sl hi li h = ground arith

below_start : (sh sl hi li : ℕ) → hi < sh → li < sl → is_above sh sl hi li ≡ false
unfolding is_above
below_start sh sl hi li h k = ground arith

entry-true :
    (adds : List Addendum) (l : Option Layer) (h : History)
    → entry true adds l h ≡ adds ++ record { layer = l; history = h } ∷ []
unfolding entry
entry-true adds l h = refl

entry-false : (adds : List Addendum) (l : Option Layer) (h : History) → entry false adds l h ≡ adds
unfolding entry
entry-false adds l h = refl

length-snoc : (pre : List Layer) (l : Layer) → length (pre ++ l ∷ []) ≡ length pre + 1
length-snoc pre l = rw length-append

-- From the start on, every entry is appended.
top_loop :
    {hs : List History} {ls : List Layer} {out : List Addendum} (sh sl hi : ℕ) (pre : List Layer)
    (adds : List Addendum)
    → sh ≤ hi
    → IsStack hs ls out
    → history_loop sh sl hi (length pre) hs (pre ++ ls) adds
      ≡ some (adds ++ out, length (pre ++ ls))
top_loop sh sl hi pre adds h done = unfold history_loop in rw (append-nil, append-nil)
top_loop sh sl hi pre adds h (bare {hs} {ls} {adds = out} x e s) =
    let added = adds ++ record { layer = none; history = x } ∷ [] in
    rw (
      bare_step sh sl hi (length pre) x hs (pre ++ ls) adds e,
      above_start sh sl hi (length pre) h,
      entry-true,
      top_loop sh sl (hi + 1) pre added (omega arith) s,
      append_assoc,
    )
top_loop sh sl hi pre adds h (layered {hs} {ls} {adds = out} x l e s) =
    let added = adds ++ record { layer = some l; history = x } ∷ [] in
    let later = top_loop sh sl (hi + 1) (pre ++ l ∷ []) added (omega arith) s in
    rw
      (
        layer_step sh sl hi (length pre) x hs (pre ++ l ∷ ls) l adds e (get_elem?-append pre ls l),
        above_start sh sl hi (length pre + 1) h,
        entry-true,
      )
      ((rw (length-snoc pre l, append_assoc) at later) ∙ rw append_assoc)

one_more : (n k : ℕ) → (n + 1) + k ≡ n + suc k
one_more n k = omega arith

-- Below the start, no entry is appended.
bottom_loop :
    {hs : List History} {ls : List Layer} {out : List Addendum} (sh sl hi : ℕ)
    (pre rest : List Layer) (more : List History)
    → hi + length hs ≤ sh
    → length pre + length ls < sl
    → IsStack hs ls out
    → history_loop sh sl hi (length pre) (hs ++ more) (pre ++ (ls ++ rest)) []
      ≡ history_loop sh sl (hi + length hs) (length (pre ++ ls)) more (pre ++ (ls ++ rest)) []
bottom_loop sh sl hi pre rest more h k done = rw (append-nil, add-zero)
bottom_loop sh sl hi pre rest more h k (bare {hs} {ls} x e s) = rw (
  bare_step sh sl hi (length pre) x (hs ++ more) (pre ++ (ls ++ rest)) [] e,
  below_start sh sl hi (length pre) (omega arith) (omega arith),
  entry-false,
  bottom_loop sh sl (hi + 1) pre rest more (omega arith) k s,
  one_more hi (length hs),
)
bottom_loop sh sl hi pre rest more h k (layered {hs} {ls} x l e s) =
    let later =
      bottom_loop sh sl (hi + 1) (pre ++ l ∷ []) rest more (omega arith)
        (omega (arith, length-snoc pre l)) s in
    rw
      (
        layer_step sh sl hi (length pre) x (hs ++ more) (pre ++ (l ∷ ls ++ rest)) l [] e
            (get_elem?-append pre (ls ++ rest) l),
        below_start sh sl hi (length pre + 1) (omega arith) (omega arith),
        entry-false,
      )
      ((rw (length-snoc pre l, append_assoc, append_assoc, one_more hi (length hs)) at later))

after-all :
    (sl : ℕ) (layers : List Layer) (adds : List Addendum)
    → after_history sl layers (some (adds, length layers)) ≡ ok adds
unfolding after_history
after-all sl layers adds = rw get_elem?-length

-- For a history whose upper part has the upper layers, the addendums above the lower part are those
-- of the upper part, in order; with an empty lower part, those of the whole history.
pub create_addendums-stack :
    {old top : List History} {old_layers top_layers : List Layer} {below above : List Addendum}
    → IsStack old old_layers below
    → IsStack top top_layers above
    → create_addendums (length old) (length old_layers + 1) (old ++ top) (old_layers ++ top_layers)
      ≡ ok above
unfolding create_addendums
create_addendums-stack {old} {top} {old_layers} {top_layers} {above} s t =
    rw
      (
        bottom_loop (length old) (length old_layers + 1) 0 [] top_layers top (omega arith)
            (omega arith) s,
        top_loop (length old) (length old_layers + 1) (0 + length old) old_layers [] (omega arith)
            t,
      )
      (after-all (length old_layers + 1) (old_layers ++ top_layers) above)

pub create_addendums-whole :
    {hs : List History} {ls : List Layer} {out : List Addendum}
    → IsStack hs ls out
    → create_addendums 0 0 hs ls ≡ ok out
unfolding create_addendums
create_addendums-whole {ls} {out} s = rw (top_loop 0 0 0 [] [] (omega arith) s) (after-all 0 ls out)
