-- ===== src/Name/Check.antt =====
-- pkg/name/check.go: the test of one element of a name. Strings are bytes; the runes of a
-- string are counted as the package `unicode/utf8` does.
pub mod Accepts
use go_containerregistry.Prelude.{
  ℕ, zero, suc, ◌-◌, Bool, true, false, ◌&&◌, ◌||◌, not, List, [], ◌∷◌, Str, contains, is_empty,
  ltb, leb, ◌==◌, if◌then◌else◌, ok, err,
}
use go_containerregistry.Name.Errors.{Parsed, bad_length, bad_runes}

-- the bytes that follow a leading byte lie in their ranges
follows : List (ℕ × ℕ) → Str → Bool
follows [] s = true
follows (r ∷ rs) [] = false
follows ((lo, hi) ∷ rs) (c ∷ s) = leb lo c && leb c hi && follows rs s

-- The bytes of the rune that begins with `c`; a byte that begins no rune counts alone.
rune_len : ℕ → Str → ℕ
unfolding follows
rune_len c s =
    if ltb c 0xc2
    then 1
    else if ltb c 0xe0
    then (if follows ((0x80, 0xbf) ∷ []) s then 2 else 1)
    else if ltb c 0xf0
    then (if follows
          ((if c == 0xe0 then 0xa0 else 0x80, if c == 0xed then 0x9f else 0xbf) ∷ (0x80, 0xbf) ∷ [])
          s
        then 3
        else 1)
    else if ltb c 0xf5
    then (if follows
          ((if c == 0xf0 then 0x90 else 0x80, if c == 0xf4 then 0x8f else 0xbf)
            ∷ (0x80, 0xbf)
            ∷ (0x80, 0xbf)
            ∷ [])
          s
        then 4
        else 1)
    else 1

-- the first argument: how many bytes of the current rune are left
runes_after : ℕ → Str → ℕ
unfolding rune_len
runes_after k [] = 0
runes_after (suc k) (c ∷ s) = runes_after k s
runes_after zero (c ∷ s) = suc (runes_after (rune_len c s - 1) s)

-- utf8.RuneCountInString
unfoldable pub rune_count : Str → ℕ
unfolding runes_after
rune_count s = runes_after 0 s

-- strings.Map(stripRunesFn(allowed), element), for allowed runes that are ASCII: no byte of a
-- longer rune is dropped.
unfoldable pub strip_runes : Str → Str → Str
strip_runes allowed [] = []
strip_runes allowed (c ∷ s) =
    let rest = strip_runes allowed s in if contains allowed c then rest else c ∷ rest

unfoldable pub check_element : Str → Str → Str → ℕ → ℕ → Parsed Unit
check_element name element allowed min_runes max_runes =
    if ltb (rune_count element) min_runes || ltb max_runes (rune_count element)
    then err (bad_length name min_runes max_runes element)
    else if not (is_empty (strip_runes allowed element))
    then err (bad_runes name allowed element)
    else ok tt
