-- ===== src/Prelude/Results.antt =====
-- Calls that return `(value, error)`, and maps with string keys as functions.
use mathlib.Core.Path.{◌≡◌, refl}
use mathlib.Core.Bool.{Bool, true, false}
use mathlib.Core.Option.{Option, none, some}
use go_containerregistry.Prelude.Tests.{if◌then◌else◌}
use go_containerregistry.Prelude.Texts.{Str, str_eq}

pub data Result {ℓ} (E A : Type ℓ) : Type ℓ where
  ok : A → Result E A
  err : E → Result E A

infixl 5 ◌>>◌
infixl 5 ◌>>=◌
abbrev pub ◌>>=◌ {ℓ} : {E A B : Type ℓ} → Result E A → (A → Result E B) → Result E B
err e >>= f = err e
ok a >>= f = f a

abbrev pub ◌>>◌ {ℓ} : {E A B : Type ℓ} → Result E A → Result E B → Result E B
m >> k = m >>= λ _. k

-- What a successful chain went through.
pub >>=-eq-ok {ℓ} :
    {E A B : Type ℓ} {b : B} (first : Result E A) (next : A → Result E B)
    → (first >>= next) ≡ ok b
    → (a : A) × (next a ≡ ok b) × (first ≡ ok a)
>>=-eq-ok (err e) next h = cc
>>=-eq-ok (ok a) next h = (a, h, refl)

pub ok_injective {ℓ} : {E A : Type ℓ} {a b : A} → ◌≡◌ {A = Result E A} (ok a) (ok b) → a ≡ b
ok_injective h = cc

pub err-ne-ok {ℓ} : {E A : Type ℓ} {e : E} {a : A} → ◌≡◌ {A = Result E A} (err e) (ok a) → ⊥
err-ne-ok h = cc

abbrev pub succeeds {ℓ} : {E A : Type ℓ} → Result E A → Bool
succeeds (ok a) = true
succeeds (err e) = false

-- Go's `map[string]V`: `none` is a missing key.
abbrev pub StrMap {ℓ} : Type ℓ → Type ℓ
StrMap V = Str → Option V

module _ {ℓ} {V : Type ℓ} where
  abbrev pub empty_map : StrMap V
  empty_map k = none

  -- m[k] = v
  abbrev pub put : StrMap V → Str → V → StrMap V
  put m k v j = if str_eq k j then some v else m j

  -- delete(m, k)
  abbrev pub delete : StrMap V → Str → StrMap V
  delete m k j = if str_eq k j then none else m j
