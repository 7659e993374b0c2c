-- ===== src/Name/Check/Accepts.antt =====
-- What the tests of pkg/name/check.go accept: a string over the allowed bytes, of a length in
-- the bounds.
use go_containerregistry.Prelude.{
  ℕ, suc, ◌≤◌, ◌<◌, ◌≡◌, refl, ap, ◌↔◌, true, false, [], ◌∷◌, Str, All, contains, is_empty, length,
  ◌==◌, ==_iff, Bool-cases, inl, inr, ok, arith,
}
use go_containerregistry.Name.Check.{rune_len, rune_count, strip_runes, check_element}

-- Every byte of `s` is one of `allowed`.
abbrev pub IsOver : Str → Str → Type 0
IsOver allowed = All (λ c. contains allowed c ≡ true)

abbrev pub IsAscii : Str → Type 0
IsAscii = All (λ c. c < 0x80)

contains-IsAscii : (s : Str) (c : ℕ) → IsAscii s → contains s c ≡ true → c < 0x80
unfolding contains
contains-IsAscii [] c a h = cc
contains-IsAscii (x ∷ s) c a h = ground (arith, contains-IsAscii s c a.1)

pub IsOver-IsAscii : (allowed s : Str) → IsAscii allowed → IsOver allowed s → IsAscii s
IsOver-IsAscii allowed [] a h = tt
IsOver-IsAscii allowed (c ∷ s) a h =
    (contains-IsAscii allowed c a h.0, IsOver-IsAscii allowed s a h.1)

rune_len-ascii : (c : ℕ) (s : Str) → c < 0x80 → rune_len c s ≡ 1
unfolding rune_len
rune_len-ascii c s h = ground arith

-- An ASCII string has a rune for each byte.
pub rune_count-ascii : (s : Str) → IsAscii s → rune_count s ≡ length s
unfolding rune_count
rune_count-ascii [] a = refl
rune_count-ascii (c ∷ s) a = rw (rune_len-ascii c s a.0) (ap suc (rune_count-ascii s a.1))

strip_runes-empty : (allowed s : Str) → is_empty (strip_runes allowed s) ≡ true → IsOver allowed s
unfolding strip_runes
strip_runes-empty allowed [] h = tt
strip_runes-empty allowed (c ∷ s) h = ground (arith, strip_runes-empty allowed s)

strip_runes-IsOver : (allowed s : Str) → IsOver allowed s → strip_runes allowed s ≡ []
unfolding strip_runes
strip_runes-IsOver allowed [] h = refl
strip_runes-IsOver allowed (c ∷ s) h = ground (arith, strip_runes-IsOver allowed s h.1)

module _ (name element allowed : Str) (lo hi : ℕ) where
  check_element-strip :
      check_element name element allowed lo hi ≡ ok tt
      → is_empty (strip_runes allowed element) ≡ true
  unfolding check_element
  check_element-strip h = ground arith

  check_element-bounds :
      check_element name element allowed lo hi ≡ ok tt
      → (lo ≤ rune_count element) × (rune_count element ≤ hi)
  unfolding check_element
  check_element-bounds h = ground arith

  check_element-ok :
      strip_runes allowed element ≡ []
      → rune_count element ≡ length element
      → lo ≤ length element
      → length element ≤ hi
      → check_element name element allowed lo hi ≡ ok tt
  unfolding check_element
  check_element-ok s n l u = rw (s, n) (ground arith)

-- For allowed runes that are ASCII, an element passes exactly when each of its bytes is allowed
-- and its length in bytes is within the bounds.
pub check_element_iff :
    (name element allowed : Str) (min_runes max_runes : ℕ)
    → IsAscii allowed
    → (check_element name element allowed min_runes max_runes ≡ ok tt)
      ↔ (IsOver allowed element × (min_runes ≤ length element) × (length element ≤ max_runes))
check_element_iff name element allowed lo hi a = (forward, backward)
  where
    forward :
        check_element name element allowed lo hi ≡ ok tt
        → IsOver allowed element × (lo ≤ length element) × (length element ≤ hi)
    forward h =
        let over =
          strip_runes-empty allowed element (check_element-strip name element allowed lo hi h) in
        let n = rune_count-ascii element (IsOver-IsAscii allowed element a over) in
        let bounds = check_element-bounds name element allowed lo hi h in
        (over, omega arith, omega arith)

    backward :
        IsOver allowed element × (lo ≤ length element) × (length element ≤ hi)
        → check_element name element allowed lo hi ≡ ok tt
    backward h =
        check_element-ok name element allowed lo hi (strip_runes-IsOver allowed element h.0)
          (rune_count-ascii element (IsOver-IsAscii allowed element a h.0)) h.1 h.2

-- A string over `allowed` has no other byte.
pub IsOver-lacks :
    (allowed s : Str) (c : ℕ) → contains allowed c ≡ false → IsOver allowed s → contains s c ≡ false
unfolding contains
IsOver-lacks allowed [] c n h = refl
IsOver-lacks allowed (x ∷ s) c n h = elim (Bool-cases (x == c)) [
  | inl e ↦ absurd (differ ((==_iff x c).0 e) h.0)
  | inr e ↦ rw e (IsOver-lacks allowed s c n h.1)
]
  where
    differ : x ≡ c → contains allowed x ≡ true → ⊥
    differ e k = cc
