-- ===== src/Transport/Examples.antt =====
-- Whether concrete errors are temporary.
use go_containerregistry.Prelude.{
  ◌≡◌, ◌≢◌, ◌↔◌, true, [], ◌∷◌, none, codes, All, List, Str, ok, inl, inr, refl, length,
}
use go_containerregistry.Transport.Errors.{
  Error, Answer, temporary, check_error, Entry, redact_query,
}
use go_containerregistry.Transport.Checked.{IsOneOf, check_error_iff}
use go_containerregistry.Transport.Sorted.{IsIn, AreSorted}
use go_containerregistry.Transport.Redacted.{IsShown, AreShown, redact_query-hides}
use go_containerregistry.Transport.Classified.{IsTemporaryCode, temporary_iff}

abbrev too_many_requests : Error
too_many_requests = record {
  errors =
      record { code = codes "TOOMANYREQUESTS"; message = codes "slow down"; detail = none } ∷ [];
  status_code = 429;
  raw_body = [];
  request = none;
}

temporary_iff_example :
    (temporary too_many_requests ≡ true)
    ↔ ((too_many_requests.errors ≢ []) × All (λ d. IsTemporaryCode d.code) too_many_requests.errors)
temporary_iff_example = temporary_iff too_many_requests

abbrev not_found : Answer
not_found = record { status_code = 404; body = ok []; request = none }

check_error_iff_example :
    (check_error (λ b. []) not_found (200 ∷ 404 ∷ []) ≡ none) ↔ IsOneOf 404 (200 ∷ 404 ∷ [])
check_error_iff_example = check_error_iff (λ b. []) not_found (200 ∷ 404 ∷ [])

abbrev query : List Entry
query = (codes "sig", codes "secret" ∷ codes "key" ∷ []) ∷ (codes "scope", codes "a" ∷ []) ∷ []

abbrev other_query : List Entry
other_query = (codes "sig", codes "x" ∷ codes "y" ∷ []) ∷ (codes "scope", codes "a" ∷ []) ∷ []

sig-is_hidden : IsShown (codes "sig") → ⊥
sig-is_hidden (inl e) = cc
sig-is_hidden (inr (inl e)) = cc
sig-is_hidden (inr (inr (inl e))) = cc
sig-is_hidden (inr (inr (inr (inl e)))) = cc
sig-is_hidden (inr (inr (inr (inr (inl e))))) = cc
sig-is_hidden (inr (inr (inr (inr (inr (inl e)))))) = cc
sig-is_hidden (inr (inr (inr (inr (inr (inr e)))))) = cc

redact_query-hides_example :
    (redact_query query ≡ redact_query other_query)
    × ((e : Entry)
        → IsIn e query
        → (ws : List Str) × IsIn (e.0, ws) (redact_query query) × AreShown e.0 ws e.1)
    × (length (redact_query query) ≡ length query)
    × AreSorted (redact_query query)
redact_query-hides_example =
    redact_query-hides query other_query
      (refl, refl, (λ shown. absurd (sig-is_hidden shown)), (refl, refl, (λ shown. refl), tt))
