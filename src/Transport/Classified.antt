-- ===== src/Transport/Classified.antt =====
-- Which answers are errors, which of them are temporary, and what is redacted.
use go_containerregistry.Prelude.{
  ◌≡◌, ◌≢◌, ◌↔◌, refl, Bool, true, false, ◌&&◌, ◌||◌, List, [], ◌∷◌, any, all, All, Str, codes,
  str_eq, str_eq_iff, ◌⊎◌, inl, inr, if◌then◌else◌,
}
use go_containerregistry.Transport.Errors.{
  Diagnostic, Error, is_nil, temporary_error_codes, temporary,
}

-- A code that says that the request may be tried again.
abbrev pub IsTemporaryCode : Str → Type 0
IsTemporaryCode c = (c ≡ codes "BLOB_UPLOAD_INVALID") ⊎ (c ≡ codes "TOOMANYREQUESTS")

or_cases : (x y : Bool) → (x || (y || false) ≡ true) ↔ ((x ≡ true) ⊎ (y ≡ true))
or_cases true y = (λ _. inl refl, λ _. refl)
or_cases false true = (λ _. inr refl, λ _. refl)
or_cases false false = (λ h. inl h, λ h. elim h [ inl x ↦ x | inr y ↦ y ])

false-ne-true : false ≡ true → ⊥
false-ne-true h = cc

and_parts : (x y : Bool) → (x && y ≡ true) ↔ ((x ≡ true) × (y ≡ true))
and_parts true y = (λ h. (refl, h), λ h. h.1)
and_parts false y = (λ h. (h, absurd (false-ne-true h)), λ h. h.0)

IsTemporaryCode-iff : (c : Str) → (any (str_eq c) temporary_error_codes ≡ true) ↔ IsTemporaryCode c
IsTemporaryCode-iff c =
    let e₁ = str_eq_iff c (codes "BLOB_UPLOAD_INVALID") in
    let e₂ = str_eq_iff c (codes "TOOMANYREQUESTS") in
    let parts =
      or_cases (str_eq c (codes "BLOB_UPLOAD_INVALID")) (str_eq c (codes "TOOMANYREQUESTS")) in
    (
      λ h. elim (parts.0 h) [ inl x ↦ inl (e₁.0 x) | inr y ↦ inr (e₂.0 y) ],
      λ h. parts.1 (elim h [ inl x ↦ inl (e₁.1 x) | inr y ↦ inr (e₂.1 y) ]),
    )

all_temporary_iff :
    (ds : List Diagnostic)
    → (all (λ d. any (str_eq d.code) temporary_error_codes) ds ≡ true)
      ↔ All (λ d. IsTemporaryCode d.code) ds
all_temporary_iff [] = (λ _. tt, λ _. refl)
all_temporary_iff (d ∷ ds) =
    let parts =
      and_parts (any (str_eq d.code) temporary_error_codes)
        (all (λ d'. any (str_eq d'.code) temporary_error_codes) ds) in
    let here = IsTemporaryCode-iff d.code in
    let rest = all_temporary_iff ds in
    (λ h. (here.0 (parts.0 h).0, rest.0 (parts.0 h).1), λ h. parts.1 (here.1 (h.0), rest.1 (h.1)))

cons-ne-nil : (d : Diagnostic) (ds : List Diagnostic) → (d ∷ ds) ≢ []
cons-ne-nil d ds e = cc

is_nil-cases :
    (ds : List Diagnostic) (b : Bool)
    → ((if is_nil ds then false else b) ≡ true) ↔ ((ds ≢ []) × (b ≡ true))
unfolding is_nil
is_nil-cases [] b = (λ h. absurd (false-ne-true h), λ h. absurd (h.0 refl))
is_nil-cases (d ∷ ds) b = (λ h. (λ e. cons-ne-nil d ds e, h), λ h. h.1)

-- An error is temporary exactly if it holds diagnostics and each of their codes is one of
-- BLOB_UPLOAD_INVALID and TOOMANYREQUESTS.
pub temporary_iff :
    (e : Error)
    → (temporary e ≡ true) ↔ ((e.errors ≢ []) × All (λ d. IsTemporaryCode d.code) e.errors)
unfolding temporary
temporary_iff e =
    let parts =
      is_nil-cases e.errors (all (λ d. any (str_eq d.code) temporary_error_codes) e.errors) in
    let each = all_temporary_iff e.errors in
    (λ h. ((parts.0 h).0, each.0 (parts.0 h).1), λ h. parts.1 (h.0, each.1 (h.1)))
