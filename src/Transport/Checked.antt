-- ===== src/Transport/Checked.antt =====
-- Which answers CheckError of pkg/v1/remote/transport/error.go accepts.
use go_containerregistry.Prelude.{
  ℕ, zero, suc, ◌≡◌, ◌↔◌, inl, inr, refl, ap, Bool, true, false, ◌||◌, List, [], ◌∷◌, any, none,
  some, Str, ◌==◌, ==_iff, Bool-cases, get_elem?, Result, ok, err, sym, some_injective,
}
use go_containerregistry.Transport.Errors.{Diagnostic, Answer, structured_error, check_error}

-- The list has the number at some index.
abbrev pub IsOneOf : ℕ → List ℕ → Type 0
IsOneOf n cs = (i : ℕ) × (get_elem? cs i ≡ some n)

or-true : (a : Bool) {b : Bool} → b ≡ true → (a || b) ≡ true
or-true true h = refl
or-true false h = h

any-IsOneOf : (n : ℕ) (cs : List ℕ) → any (λ c. n == c) cs ≡ true → IsOneOf n cs
any-IsOneOf n [] h = cc
any-IsOneOf n (c ∷ cs) h = elim (Bool-cases (n == c)) [
  | inl e ↦ (0, ap some (sym ((==_iff n c).0 e)))
  | inr e ↦ (let (i, at) = any-IsOneOf n cs (rw e at h) in (suc i, at))
]

IsOneOf-any : (n : ℕ) (cs : List ℕ) → IsOneOf n cs → any (λ c. n == c) cs ≡ true
IsOneOf-any n [] (i, h) = cc
IsOneOf-any n (c ∷ cs) (zero, h) = let e = (==_iff n c).1 (sym (some_injective h)) in rw e
IsOneOf-any n (c ∷ cs) (suc i, h) = let e = IsOneOf-any n cs (i, h) in or-true (n == c) e

fails :
    (decode : Str → List Diagnostic) (resp : Answer) (b : Result Str Str)
    → structured_error decode resp b ≡ none
    → ⊥
unfolding structured_error
fails decode resp (ok b) h = cc
fails decode resp (err e) h = cc

-- CheckError returns nil exactly if the status is one of the expected codes.
pub check_error_iff :
    (decode : Str → List Diagnostic) (resp : Answer) (status_codes : List ℕ)
    → (check_error decode resp status_codes ≡ none) ↔ IsOneOf resp.status_code status_codes
unfolding check_error
check_error_iff decode resp cs = (
  λ h. elim (Bool-cases (any (λ c. resp.status_code == c) cs)) [
    | inl e ↦ any-IsOneOf resp.status_code cs e
    | inr e ↦ absurd (fails decode resp resp.body (rw e at h))
  ],
  λ h. (let e = IsOneOf-any resp.status_code cs h in rw e),
)
