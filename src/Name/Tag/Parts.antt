-- ===== src/Name/Tag/Parts.antt =====
-- Where `NewTag` cuts a name.
use go_containerregistry.Prelude.{
  ℕ, ◌<◌, ◌≡◌, ◌≢◌, refl, ap, Bool, true, false, ◌&&◌, ◌||◌, not, List, [], ◌∷◌, ◌++◌, Str,
  contains, contains-append, split, split-append, split-lacks, split-ne-nil, split_last, join,
  join-split, push_front, length, length-append, last_or, drop_last, last_or-concat,
  drop_last-concat, last-split-lacks, ltb, Bool-cases, ◌⊎◌, inl, inr, arith,
}
use go_containerregistry.Name.Tag.{tag_part}

length-concat : (ps : List Str) (q : Str) → ps ≢ [] → 1 < length (ps ++ q ∷ [])
length-concat [] q h = absurd (h refl)
length-concat (p ∷ ps) q h = omega (arith, length-append ps (q ∷ []))

tag_part-of_parts :
    (s : Str) (ps : List Str) (tag : Str)
    → split s b':' ≡ ps ++ tag ∷ []
    → 1 < length (ps ++ tag ∷ [])
    → contains tag b'/' ≡ false
    → tag_part s ≡ (join ps b':', tag)
unfolding tag_part
tag_part-of_parts s ps tag e n h =
    rw (e, last_or-concat [] tag ps, drop_last-concat tag ps, h) (ground arith)

-- A tag behind the last colon is cut off, if it has no colon and no slash.
pub tag_part-append :
    (base tag : Str)
    → contains tag b':' ≡ false
    → contains tag b'/' ≡ false
    → tag_part (base ++ b':' ∷ tag) ≡ (base, tag)
tag_part-append base tag c h =
    rw
      (tag_part-of_parts _ (split base b':') tag (split-append base tag b':' c)
        (length-concat (split base b':') tag (split-ne-nil base b':')) h)
      (ap (λ t. (t, tag)) (join-split base b':'))

is_cut : Str → Bool
is_cut s = ltb 1 (length (split s b':')) && not (contains (last_or [] (split s b':')) b'/')

tag_part-whole : (s : Str) → is_cut s ≡ false → tag_part s ≡ (s, [])
unfolding tag_part is_cut
tag_part-whole s h = rw h

tag_part-two :
    (s : Str)
    → is_cut s ≡ true
    → tag_part s ≡ (join (drop_last (split s b':')) b':', last_or [] (split s b':'))
unfolding tag_part is_cut
tag_part-two s h = rw h

is_cut-long : (s : Str) → is_cut s ≡ true → 1 < length (split s b':')
unfolding is_cut
is_cut-long s h = ground arith

is_cut-no_slash : (s : Str) → is_cut s ≡ true → contains (last_or [] (split s b':')) b'/' ≡ false
unfolding is_cut
is_cut-no_slash s h = ground arith

-- Nothing is cut off, or a tag with no colon and no slash is.
pub tag_part-cases :
    (s : Str)
    → (tag_part s ≡ (s, []))
      ⊎ ((s ≡ (tag_part s).0 ++ b':' ∷ (tag_part s).1)
          × (contains (tag_part s).1 b':' ≡ false)
          × (contains (tag_part s).1 b'/' ≡ false))
tag_part-cases s = elim (Bool-cases (is_cut s)) [
  | inl e ↦ inr (
      rw (tag_part-two s e)
        (split_last s b':' (is_cut-long s e), last-split-lacks s b':', is_cut-no_slash s e))
  | inr e ↦ inl (tag_part-whole s e)
]

-- the parts of `s ++ t` where `t` has no separator
append_last : List Str → Str → List Str
append_last [] t = []
append_last (p ∷ []) t = (p ++ t) ∷ []
append_last (p ∷ q ∷ ps) t = p ∷ append_last (q ∷ ps) t

append_last-push_front :
    (c : ℕ) (ps : List Str) (t : Str)
    → ps ≢ []
    → push_front c (append_last ps t) ≡ append_last (push_front c ps) t
unfolding append_last
append_last-push_front c [] t h = absurd (h refl)
append_last-push_front c (p ∷ []) t h = refl
append_last-push_front c (p ∷ q ∷ ps) t h = refl

append_last-nil_cons :
    (ps : List Str) (t : Str) → ps ≢ [] → append_last ([] ∷ ps) t ≡ [] ∷ append_last ps t
unfolding append_last
append_last-nil_cons [] t h = absurd (h refl)
append_last-nil_cons (p ∷ ps) t h = refl

last-append_last :
    (d : Str) (ps : List Str) (t : Str) → ps ≢ [] → last_or d (append_last ps t) ≡ last_or d ps ++ t
unfolding append_last
last-append_last d [] t h = absurd (h refl)
last-append_last d (p ∷ []) t h = refl
last-append_last d (p ∷ q ∷ ps) t h = last-append_last p (q ∷ ps) t (λ e. cc)

split-append_last :
    (s t : Str) → contains t b':' ≡ false → split (s ++ t) b':' ≡ append_last (split s b':') t
unfolding split
split-append_last [] t h = unfold append_last in split-lacks t b':' h
split-append_last (c ∷ s) t h = ground (
  arith,
  split-append_last s t h,
  append_last-push_front c (split s b':') t (split-ne-nil s b':'),
  append_last-nil_cons (split s b':') t (split-ne-nil s b':'),
)

-- A path with no colon belongs to the last part.
last-split-append :
    (s t : Str)
    → contains t b':' ≡ false
    → last_or [] (split (s ++ t) b':') ≡ last_or [] (split s b':') ++ t
last-split-append s t h =
    rw (split-append_last s t h) (last-append_last [] (split s b':') t (split-ne-nil s b':'))

contains-slash : (s t : Str) → contains (s ++ b'/' ∷ t) b'/' ≡ true
contains-slash s t = rw contains-append (unfold contains in or_true (contains s b'/'))
  where
    or_true : (b : Bool) → (b || true) ≡ true
    or_true true = refl
    or_true false = refl

slash-lacks_colon : (t : Str) → contains t b':' ≡ false → contains (b'/' ∷ t) b':' ≡ false
unfolding contains
slash-lacks_colon t h = ground arith

-- A name that ends in a path has no tag: the last colon is that of a port.
pub tag_part-path :
    (s t : Str) → contains t b':' ≡ false → tag_part (s ++ b'/' ∷ t) ≡ (s ++ b'/' ∷ t, [])
unfolding tag_part
tag_part-path s t h =
    rw (last-split-append s (b'/' ∷ t) (slash-lacks_colon t h), contains-slash) (ground arith)
