-- ===== src/Transport/Redacted.antt =====
-- What redactURL of pkg/v1/remote/transport/error.go keeps of a query.
use go_containerregistry.Prelude.{
  zero, suc, ◌≡◌, ◌↔◌, ◌⊎◌, inl, inr, refl, ap, ap₂, ◌∙◌, Bool, true, false, ◌||◌, Bool-cases, List,
  [], ◌∷◌, any, All, map, some, Str, codes, str_eq, str_eq_refl, str_eq→eq, length, some_injective,
  subst, arith,
}
use go_containerregistry.Transport.Sorted.{
  IsIn, AreSorted, sort_entries-IsIn, sort_entries-length, sort_entries-AreSorted,
}
use go_containerregistry.Transport.Errors.{
  Entry, param_whitelist, redacted, redact_entry, sort_entries, redact_query,
}

-- A key whose values may be shown.
abbrev pub IsShown : Str → Type 0
IsShown k =
    (k ≡ codes "scope")
    ⊎ (k ≡ codes "service")
    ⊎ (k ≡ codes "mount")
    ⊎ (k ≡ codes "from")
    ⊎ (k ≡ codes "digest")
    ⊎ (k ≡ codes "n")
    ⊎ (k ≡ codes "last")

-- Two queries with the same keys and numbers of values, and with the same values where they are shown.
abbrev pub AreAlike : List Entry → List Entry → Type 0
AreAlike [] [] = Unit
AreAlike [] (f ∷ fs) = ⊥
AreAlike (e ∷ es) [] = ⊥
AreAlike (e ∷ es) (f ∷ fs) =
    (e.0 ≡ f.0) × (length e.1 ≡ length f.1) × (IsShown e.0 → e.1 ≡ f.1) × AreAlike es fs

-- The values of a key after and before: all of them, or as many times REDACTED.
abbrev pub AreShown : Str → List Str → List Str → Type 0
AreShown k ws vs =
    (IsShown k × (ws ≡ vs))
    ⊎ ((IsShown k → ⊥) × (length ws ≡ length vs) × All (λ w. w ≡ codes "REDACTED") ws)

key_or :
    (k x : Str) (b : Bool) {B : Type 0}
    → ((b ≡ true) ↔ B)
    → ((str_eq k x || b) ≡ true) ↔ ((k ≡ x) ⊎ B)
key_or k x b rest = elim (Bool-cases (str_eq k x)) [
  | inl e ↦ (λ h. inl (str_eq→eq k x e), λ h. rw e)
  | inr e ↦ (
    λ h. inr (rest.0 (rw e at h)),
    λ h. elim h [
      | inl q ↦ (let same = str_eq_refl k in let f = subst (λ y. str_eq k y ≡ true) q same in rw f)
      | inr r ↦ rw e (rest.1 r)
    ],
  )
]

key_last : (k x : Str) → ((str_eq k x || false) ≡ true) ↔ (k ≡ x)
key_last k x = elim (Bool-cases (str_eq k x)) [
  | inl e ↦ (λ h. str_eq→eq k x e, λ h. rw e)
  | inr e ↦ (
    λ h. (let q : false ≡ true = rw e at h in cc),
    λ h. (let f = subst (λ y. str_eq k y ≡ true) h (str_eq_refl k) in rw f),
  )
]

IsShown-iff : (k : Str) → (any (str_eq k) param_whitelist ≡ true) ↔ IsShown k
IsShown-iff k =
    key_or k _ _
      (key_or k _ _ (key_or k _ _ (key_or k _ _ (key_or k _ _ (key_or k _ _ (key_last k _))))))

-- the entries, redacted one by one

constant_values :
    (vs : List Str)
    → (length (map (λ v. redacted) vs) ≡ length vs)
      × All (λ w. w ≡ codes "REDACTED") (map (λ v. redacted) vs)
constant_values [] = (refl, tt)
constant_values (v ∷ vs) = let (n, each) = constant_values vs in (ap suc n, (refl, each))

constant_alike :
    (vs ws : List Str) → length vs ≡ length ws → map (λ v. redacted) vs ≡ map (λ v. redacted) ws
constant_alike [] [] h = refl
constant_alike [] (w ∷ ws) h = absurd (omega arith)
constant_alike (v ∷ vs) [] h = absurd (omega arith)
constant_alike (v ∷ vs) (w ∷ ws) h = ap (λ x. redacted ∷ x) (constant_alike vs ws (omega arith))

redact_entry-AreShown : (e : Entry) → AreShown e.0 (redact_entry e).1 e.1
unfolding redact_entry
redact_entry-AreShown (k, vs) = elim (Bool-cases (any (str_eq k) param_whitelist)) [
  | inl q ↦ rw q (inl ((IsShown-iff k).0 q, refl))
  | inr q ↦ rw q (
      inr (
        (λ shown. (let p = (IsShown-iff k).1 shown in let f : false ≡ true = rw q at p in cc)),
        (constant_values vs).0,
        (constant_values vs).1,
      ))
]

redact_entry-alike :
    (k : Str) (vs ws : List Str)
    → length vs ≡ length ws
    → (IsShown k → vs ≡ ws)
    → redact_entry (k, vs) ≡ redact_entry (k, ws)
unfolding redact_entry
redact_entry-alike k vs ws n same = elim (Bool-cases (any (str_eq k) param_whitelist)) [
  | inl q ↦ rw q (ap (λ x. (k, x)) (same ((IsShown-iff k).0 q)))
  | inr q ↦ rw q (ap (λ x. (k, x)) (constant_alike vs ws n))
]

redact_entries-alike :
    (es fs : List Entry) → AreAlike es fs → map redact_entry es ≡ map redact_entry fs
redact_entries-alike [] [] h = refl
redact_entries-alike [] (f ∷ fs) h = absurd h
redact_entries-alike (e ∷ es) [] h = absurd h
redact_entries-alike ((k, vs) ∷ es) ((j, ws) ∷ fs) (q, n, same, rest) =
    ap₂ (λ x xs. x ∷ xs) (redact_entry-alike k vs ws n same ∙ ap (λ x. redact_entry (x, ws)) q)
      (redact_entries-alike es fs rest)

redact_entry-key : (e : Entry) → redact_entry e ≡ (e.0, (redact_entry e).1)
unfolding redact_entry
redact_entry-key (k, vs) = refl

IsIn-map : (e : Entry) (es : List Entry) → IsIn e es → IsIn (redact_entry e) (map redact_entry es)
IsIn-map e [] (i, h) = cc
IsIn-map e (f ∷ fs) (zero, h) = (0, ap (λ x. some (redact_entry x)) (some_injective h))
IsIn-map e (f ∷ fs) (suc i, h) = let (j, at) = IsIn-map e fs (i, h) in (suc j, at)

length-map : (es : List Entry) → length (map redact_entry es) ≡ length es
length-map [] = refl
length-map (e ∷ es) = ap suc (length-map es)

-- A redacted query shows nothing but its keys, how many values each has, and the values of scope,
-- service, mount, from, digest, n and last: two queries that agree in these are redacted alike. It
-- has an entry for each entry of the query, with the same values where the key is one of those seven
-- and with as many times REDACTED where it is not, no more entries than the query, and its entries
-- stand in the order of their keys.
pub redact_query-hides :
    (qs qs' : List Entry)
    → AreAlike qs qs'
    → (redact_query qs ≡ redact_query qs')
      × ((e : Entry)
          → IsIn e qs
          → (ws : List Str) × IsIn (e.0, ws) (redact_query qs) × AreShown e.0 ws e.1)
      × (length (redact_query qs) ≡ length qs)
      × AreSorted (redact_query qs)
unfolding redact_query
redact_query-hides qs qs' alike = (
  ap sort_entries (redact_entries-alike qs qs' alike),
  λ e at. (
    (redact_entry e).1,
    subst (λ x. IsIn x (sort_entries (map redact_entry qs))) (redact_entry-key e)
        (sort_entries-IsIn (redact_entry e) (map redact_entry qs) (IsIn-map e qs at)),
    redact_entry-AreShown e,
  ),
  sort_entries-length (map redact_entry qs) ∙ length-map qs,
  sort_entries-AreSorted (map redact_entry qs),
)
