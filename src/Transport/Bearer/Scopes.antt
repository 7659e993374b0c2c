-- ===== src/Transport/Bearer/Scopes.antt =====
-- The scopes that bearerTransport of pkg/v1/remote/transport/bearer.go requests.
use go_containerregistry.Prelude.{
  ◌≡◌, refl, subst, Bool, true, false, ◌||◌, List, [], ◌∷◌, ◌++◌, Option, none, some, Bool-cases,
  inl, inr, Str, codes, split, str_eq, str_eq→eq, if◌then◌else◌, All, arith,
}
use go_containerregistry.Transport.Ping.{Challenge}
use go_containerregistry.Transport.Bearer.{has_scope, add_scopes, add_scope_value, add_challenges}

-- Every scope of the first list is in the second.
abbrev pub ContainsAll : List Str → List Str → Type 0
ContainsAll wants scopes = (s : Str) → has_scope wants s ≡ true → has_scope scopes s ≡ true

has_scope-append :
    (xs ys : List Str) (s : Str) → has_scope (xs ++ ys) s ≡ has_scope xs s || has_scope ys s
has_scope-append [] ys s = refl
has_scope-append (x ∷ xs) ys s = ground (arith, has_scope-append xs ys s)

one_more : (got scopes : List Str) (want : Str) → List Str
one_more got scopes want = if has_scope got want then scopes else scopes ++ want ∷ []

one_more-keeps :
    (got scopes : List Str) (want s : Str)
    → has_scope scopes s ≡ true
    → has_scope (one_more got scopes want) s ≡ true
unfolding one_more
one_more-keeps got scopes want s h = elim (Bool-cases (has_scope got want)) [
  | inl e ↦ rw e h
  | inr e ↦ rw (e, has_scope-append scopes (want ∷ []) s, h) refl
]

add_scopes-keeps :
    (got wants scopes : List Str) (s : Str)
    → has_scope scopes s ≡ true
    → has_scope (add_scopes got wants scopes) s ≡ true
unfolding add_scopes one_more
add_scopes-keeps got [] scopes s h = h
add_scopes-keeps got (want ∷ wants) scopes s h =
    add_scopes-keeps got wants (one_more got scopes want) s (one_more-keeps got scopes want s h)

one_more-adds :
    (got scopes : List Str) (want s : Str)
    → ContainsAll got scopes
    → str_eq want s ≡ true
    → has_scope (one_more got scopes want) s ≡ true
unfolding one_more
one_more-adds got scopes want s sub e = elim (Bool-cases (has_scope got want)) [
  | inl g ↦ rw g (subst (λ t. has_scope scopes t ≡ true) (str_eq→eq want s e) (sub want g))
  | inr g ↦ rw (g, has_scope-append scopes (want ∷ []) s, e) (or_true (has_scope scopes s))
]
  where
    or_true : (b : Bool) → (b || true) ≡ true
    or_true true = refl
    or_true false = refl

add_scopes-adds :
    (got wants scopes : List Str)
    → ContainsAll got scopes
    → ContainsAll wants (add_scopes got wants scopes)
unfolding add_scopes one_more
add_scopes-adds got [] scopes sub s h = cc
add_scopes-adds got (want ∷ wants) scopes sub s h = elim (Bool-cases (str_eq want s)) [
  | inl e ↦
      add_scopes-keeps got wants (one_more got scopes want) s
        (one_more-adds got scopes want s sub e)
  | inr e ↦
      add_scopes-adds got wants (one_more got scopes want)
        (λ t k. one_more-keeps got scopes want t (sub t k)) s (rw e at h)
]

add_scope_value-keeps :
    (scopes : List Str) (v : Option Str) → ContainsAll scopes (add_scope_value scopes v)
unfolding add_scope_value
add_scope_value-keeps scopes none s h = h
add_scope_value-keeps scopes (some v) s h = add_scopes-keeps scopes (split v b' ') scopes s h

add_challenges-keeps :
    (cs : List Challenge) (scopes : List Str) → ContainsAll scopes (add_challenges cs scopes)
unfolding add_challenges
add_challenges-keeps [] scopes s h = h
add_challenges-keeps (c ∷ cs) scopes s h =
    add_challenges-keeps cs _ s (add_scope_value-keeps scopes (c.parameters (codes "scope")) s h)

-- The scopes of the parameter `scope`, if there is one, are all in the list.
abbrev pub Wanted : Challenge → List Str → Type 0
Wanted c scopes =
    (v : Str) → c.parameters (codes "scope") ≡ some v → ContainsAll (split v b' ') scopes

-- After a response with challenges, the transport requests every scope that it requested and every
-- scope that one of the challenges names.
pub add_challenges-ContainsAll :
    (cs : List Challenge) (scopes : List Str)
    → ContainsAll scopes (add_challenges cs scopes)
      × All (λ c. Wanted c (add_challenges cs scopes)) cs
unfolding add_challenges add_scope_value
add_challenges-ContainsAll cs scopes = (add_challenges-keeps cs scopes, wanted cs scopes)
  where
    wanted :
        (cs : List Challenge) (scopes : List Str)
        → All (λ c. Wanted c (add_challenges cs scopes)) cs
    wanted [] scopes = tt
    wanted (c ∷ cs) scopes = (
      λ v e s h.
          add_challenges-keeps cs _ s
            (rw e (add_scopes-adds scopes (split v b' ') scopes (λ t k. k) s h)),
      wanted cs _,
    )
