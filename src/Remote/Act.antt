-- ===== src/Remote/Act.antt =====
-- Calls that return an error or a value, and act on a world: the network and what is behind it.
use go_containerregistry.Prelude.{◌≡◌, refl, ap, Result, ok, err, err-ne-ok}

abbrev pub Act : Type 0 → Type 0 → Type 0 → Type 0
Act W E A = W → Result E A × W

module _ {W E : Type 0} where
  abbrev pub done : {A : Type 0} → A → Act W E A
  done a w = (ok a, w)

  abbrev pub fail_with : {A : Type 0} → E → Act W E A
  fail_with e w = (err e, w)

  abbrev pub lift : {A : Type 0} → Result E A → Act W E A
  lift r w = (r, w)

  abbrev pub continue : {A B : Type 0} → Result E A × W → (A → Act W E B) → Result E B × W
  continue (ok a, w) f = f a w
  continue (err e, w) f = (err e, w)

  infixl 5 ◌>>=◌
  abbrev pub ◌>>=◌ : {A B : Type 0} → Act W E A → (A → Act W E B) → Act W E B
  (m >>= f) w = continue (m w) f

  infixl 5 ◌>>◌
  abbrev pub ◌>>◌ : {A B : Type 0} → Act W E A → Act W E B → Act W E B
  m >> k = m >>= λ _. k

  -- a step of a chain that succeeds
  pub step-ok :
      {A B : Type 0} (m : Act W E A) (f : A → Act W E B) (w w' : W) (a : A)
      → m w ≡ (ok a, w')
      → (m >>= f) w ≡ f a w'
  step-ok m f w w' a h = ap (λ x. continue x f) h

  -- a chain that succeeded
  pub continue-ok :
      {A B : Type 0} (r : Result E A × W) (f : A → Act W E B) (w' : W) (b : B)
      → continue r f ≡ (ok b, w')
      → (a : A) × (v : W) × (r ≡ (ok a, v)) × (f a v ≡ (ok b, w'))
  continue-ok (ok a, v) f w' b h = (a, v, refl, h)
  continue-ok (err e, v) f w' b h = absurd (err-ne-ok (ap (λ x. x.0) h))
