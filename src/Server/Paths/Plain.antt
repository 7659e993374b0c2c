-- ===== src/Server/Paths/Plain.antt =====
-- Paths of elements that path.Clean keeps: how they are joined, cleaned and split again.
use go_containerregistry.Prelude.{
  ℕ, zero, suc, ◌+◌, ◌/◌, ◌%◌, ◌<◌, ◌≡◌, ◌≢◌, refl, sym, ap, ◌∙◌, Bool, true, false, ◌&&◌, ◌||◌,
  ◌==◌, all, List, [], ◌∷◌, ◌++◌, append_assoc, append-nil, All, Str, codes, contains, is_empty,
  str_eq, split, join, split-lacks, ltb, Bool-cases, inl, inr, arith,
}
use go_containerregistry.Server.Http.{decimal, digits}
use go_containerregistry.Server.Paths.{
  clean, clean_step, clean_loop, clean_text, is_rooted, without_empty, joined, path_join,
}

-- An element with no slash that is not empty, `.` or `..`.
pub record IsPlain (e : Str) : Type 0 where
  pub full : is_empty e ≡ false
  pub no_slash : contains e b'/' ≡ false
  pub no_dot : str_eq e (codes ".") ≡ false
  pub no_dots : str_eq e (codes "..") ≡ false

abbrev slash : Str → Str → Str
slash a b = a ++ b'/' ∷ b

pub join-append :
    (xs ys : List Str)
    → xs ≢ []
    → ys ≢ []
    → join (xs ++ ys) b'/' ≡ slash (join xs b'/') (join ys b'/')
unfolding join
join-append [] ys h k = absurd (h refl)
join-append (x ∷ []) [] h k = absurd (k refl)
join-append (x ∷ []) (y ∷ ys) h k = refl
join-append (x ∷ z ∷ xs) ys h k =
    ap (λ t. x ++ b'/' ∷ t) (join-append (z ∷ xs) ys (λ e. cc) k)
    ∙ sym (append_assoc x (b'/' ∷ join (z ∷ xs) b'/') (b'/' ∷ join ys b'/'))

-- splitting at the first separator
split-front : (a b : Str) → contains a b'/' ≡ false → split (slash a b) b'/' ≡ a ∷ split b b'/'
unfolding split contains
split-front [] b h = refl
split-front (c ∷ a) b h = ground (arith, split-front a b)

pub split-join :
    (x : Str) (xs : List Str)
    → All (λ e. contains e b'/' ≡ false) (x ∷ xs)
    → split (join (x ∷ xs) b'/') b'/' ≡ x ∷ xs
unfolding join
split-join x [] h = split-lacks x b'/' h.0
split-join x (y ∷ ys) h = split-front x _ h.0 ∙ ap (λ t. x ∷ t) (split-join y ys h.1)

clean_step-plain : (out : List Str) (e : Str) → IsPlain e → clean_step false out e ≡ out ++ e ∷ []
unfolding clean_step
clean_step-plain out e p = rw (p.full, p.no_dot, p.no_dots)

clean_loop-plain : (out es : List Str) → All IsPlain es → clean_loop false out es ≡ out ++ es
unfolding clean_loop
clean_loop-plain out [] h = sym (append-nil out)
clean_loop-plain out (e ∷ es) h =
    ap (λ o. clean_loop false o es) (clean_step-plain out e h.0)
    ∙ clean_loop-plain (out ++ e ∷ []) es h.1
    ∙ append_assoc out (e ∷ []) es

All-lacks : (es : List Str) → All IsPlain es → All (λ e. contains e b'/' ≡ false) es
All-lacks [] h = tt
All-lacks (e ∷ es) h = (h.0.no_slash, All-lacks es h.1)

is_rooted-slash :
    (x t : Str) → is_empty x ≡ false → contains x b'/' ≡ false → is_rooted (x ++ t) ≡ false
unfolding is_rooted contains
is_rooted-slash [] t h k = cc
is_rooted-slash (c ∷ x) t h k = ground arith

pub is_rooted-join : (e : Str) (es : List Str) → IsPlain e → is_rooted (join (e ∷ es) b'/') ≡ false
unfolding join
is_rooted-join e [] p = ap is_rooted (sym (append-nil e)) ∙ is_rooted-slash e [] p.full p.no_slash
is_rooted-join e (f ∷ es) p = is_rooted-slash e _ p.full p.no_slash

pub clean-join :
    (e : Str) (es : List Str)
    → All IsPlain (e ∷ es)
    → clean (join (e ∷ es) b'/') ≡ join (e ∷ es) b'/'
unfolding clean clean_text
clean-join e es h =
    ap (λ r. clean_text r (clean_loop r [] (split (join (e ∷ es) b'/') b'/')))
      (is_rooted-join e es h.0)
    ∙ ap (λ o. clean_text false (clean_loop false [] o)) (split-join e es (All-lacks (e ∷ es) h))
    ∙ ap (λ o. clean_text false o) (clean_loop-plain [] (e ∷ es) h)

without_empty-plain : (es : List Str) → All IsPlain es → without_empty es ≡ es
unfolding without_empty
without_empty-plain [] h = refl
without_empty-plain (e ∷ es) h = rw (h.0.full, without_empty-plain es h.1)

pub path_join-plain :
    (e : Str) (es : List Str) → All IsPlain (e ∷ es) → path_join (e ∷ es) ≡ join (e ∷ es) b'/'
unfolding path_join joined
path_join-plain e es h = ap (λ o. joined o) (without_empty-plain (e ∷ es) h) ∙ clean-join e es h

-- A digit, as a code.
abbrev IsDigit : ℕ → Type 0
IsDigit c = (b'/' < c) × (c < b':')

-- a letter, a digit or one of the marks that a URL holds as they are
abbrev pub is_unreserved : ℕ → Bool
is_unreserved c =
    (ltb b'/' c && ltb c b':')
    || (ltb b'`' c && ltb c b'{')
    || (ltb b'@' c && ltb c b'[')
    || c == b'-'
    || c == b'.'
    || c == b'_'
    || c == b'~'

abbrev pub IsUnreserved : Str → Type 0
IsUnreserved e = all is_unreserved e ≡ true

digits-IsDigit : (fuel n : ℕ) (out : Str) → All IsDigit out → All IsDigit (digits fuel n out)
unfolding digits
digits-IsDigit zero n out h = h
digits-IsDigit (suc fuel) n out h = elim (Bool-cases (ltb n 10)) [
  | inl e ↦ rw e ((omega arith, omega arith), h)
  | inr e ↦
      rw e (digits-IsDigit fuel (n / 10) ((48 + n % 10) ∷ out) ((omega arith, omega arith), h))
]

digits-full : (fuel n : ℕ) (out : Str) → is_empty out ≡ false → is_empty (digits fuel n out) ≡ false
unfolding digits
digits-full zero n out h = h
digits-full (suc fuel) n out h = elim (Bool-cases (ltb n 10)) [
  | inl e ↦ rw e
  | inr e ↦ rw e (digits-full fuel (n / 10) ((48 + n % 10) ∷ out) refl)
]

decimal-full : (n : ℕ) → is_empty (decimal n) ≡ false
unfolding decimal digits
decimal-full n = elim (Bool-cases (ltb n 10)) [
  | inl e ↦ rw e
  | inr e ↦ rw e (digits-full n (n / 10) ((48 + n % 10) ∷ []) refl)
]

digits-lack : (s : Str) → All IsDigit s → contains s b'/' ≡ false
unfolding contains
digits-lack [] a = refl
digits-lack (c ∷ s) a = let low = a.0.0 in ground (arith, digits-lack s a.1)

digit-IsPlain : (s : Str) → is_empty s ≡ false → All IsDigit s → IsPlain s
unfolding contains str_eq
digit-IsPlain [] h a = cc
digit-IsPlain (c ∷ s) h a =
    let low = a.0.0 in
    record {
      full = refl;
      no_slash = digits-lack (c ∷ s) a;
      no_dot = ground arith;
      no_dots = ground arith;
    }

pub decimal-IsPlain : (n : ℕ) → IsPlain (decimal n)
unfolding decimal
decimal-IsPlain n = digit-IsPlain (decimal n) (decimal-full n) (digits-IsDigit (suc n) n [] tt)

digit-is_unreserved : (c : ℕ) → IsDigit c → is_unreserved c ≡ true
digit-is_unreserved c (low, high) = ground arith

digits-IsUnreserved : (s : Str) → All IsDigit s → IsUnreserved s
digits-IsUnreserved [] a = refl
digits-IsUnreserved (c ∷ s) a =
    let first = digit-is_unreserved c a.0 in
    let rest = digits-IsUnreserved s a.1 in rw (first, rest)

pub decimal-IsUnreserved : (n : ℕ) → IsUnreserved (decimal n)
unfolding decimal
decimal-IsUnreserved n = digits-IsUnreserved (decimal n) (digits-IsDigit (suc n) n [] tt)
