-- ===== src/Remote/Listing/Links.antt =====
-- Which Link headers getNextPageURL of pkg/v1/remote/list.go takes for the last and for the next page.
use go_containerregistry.Prelude.{
  ℕ, ◌≡◌, ◌⊎◌, inl, inr, refl, sym, ap, ◌∙◌, false, Bool-cases, [], ◌∷◌, ◌++◌, Option, none, some,
  Str, contains, ◌==◌, ==_iff, ok, err-ne-ok, ok_injective, subst, arith,
}
use go_containerregistry.Transport.Addresses.{cut_first}
use go_containerregistry.Remote.Listing.{next_page_url, parsed_link, resolved}

pub cut_first-front :
    (a b : Str) (c : ℕ) → contains a c ≡ false → cut_first (a ++ c ∷ b) c ≡ some (a, b)
unfolding cut_first contains
cut_first-front [] b c h = ground arith
cut_first-front (x ∷ a) b c h = ground (arith, cut_first-front a b c)

-- a text that is cut, and where
abbrev IsCut : Str → ℕ → Option (Str × Str) → Type 0
IsCut s c none = Unit
IsCut s c (some (a, b)) = (s ≡ a ++ c ∷ b) × (contains a c ≡ false)

cut_first-IsCut : (s : Str) (c : ℕ) → IsCut s c (cut_first s c)
unfolding cut_first contains
cut_first-IsCut [] c = tt
cut_first-IsCut (x ∷ s) c = elim (Bool-cases (x == c)) [
  | inl e ↦ rw e (ap (λ y. y ∷ s) ((==_iff x c).0 e), refl)
  | inr e ↦ rw e (later (cut_first s c) (cut_first-IsCut s c) e)
]
  where
    later :
        (o : Option (Str × Str))
        → IsCut s c o
        → (x == c) ≡ false
        → IsCut (x ∷ s) c (elim o [ some (a, b) ↦ some (x ∷ a, b) | none ↦ none ])
    later none h e = tt
    later (some (a, b)) (h, k) e = (ap (λ t. x ∷ t) h, rw e k)

module _ {U : Type 0} (parse : Str → Option U) (resolve : U → U → U) where
  -- A Link header: a URL between angle brackets, and anything behind them.
  abbrev pub HasLink : Str → U → Type 0
  HasLink link v =
      (inside : Str) × (rest : Str) × (link ≡ b'<' ∷ inside ++ b'>' ∷ rest)
      × (contains inside b'>' ≡ false)
      × (parse inside ≡ some v)

  -- The header of a last page, which has no Link, or answers a request without a URL.
  abbrev pub IsLast : Str → Option U → Type 0
  IsLast link request_url = (link ≡ []) ⊎ ((v : U) × HasLink link v × (request_url ≡ none))

  -- The header of a page with a next page, whose Link is taken from the URL of the request.
  abbrev pub LeadsTo : Str → Option U → U → Type 0
  LeadsTo link request_url u =
      (v : U) × (base : U) × HasLink link v × (request_url ≡ some base) × (u ≡ resolve base v)

  -- a header, by what getNextPageURL makes of it
  abbrev pub Leads : Str → Option U → Option U → Type 0
  Leads link request_url none = IsLast link request_url
  Leads link request_url (some u) = LeadsTo link request_url u

  linked :
      (link : Str) (request_url : Option U) (v : U)
      → HasLink link v
      → next_page_url parse resolve link request_url
        ≡ resolved parse resolve (link) (some v) request_url
  unfolding next_page_url parsed_link
  linked link request_url v (inside, rest, e, lacks, p) =
      ap (λ l. next_page_url parse resolve l request_url) e
      ∙ rw (cut_first-front inside rest b'>' lacks, p) refl
      ∙ ap (λ l. resolved parse resolve l (some v) request_url) (sym e)

  pub Leads-next_page_url :
      (link : Str) (request_url next : Option U)
      → Leads link request_url next
      → next_page_url parse resolve link request_url ≡ ok next
  unfolding next_page_url resolved
  Leads-next_page_url link request_url none (inl e) =
      ap (λ l. next_page_url parse resolve l request_url) e
  Leads-next_page_url link request_url none (inr (v, has, e)) =
      linked link request_url v has ∙ ap (λ o. resolved parse resolve link (some v) o) e
  Leads-next_page_url link request_url (some u) (v, base, has, e, q) =
      linked link request_url v has
      ∙ ap (λ o. resolved parse resolve link (some v) o) e
      ∙ ap (λ x. ok (some x)) (sym q)

  resolved-Leads :
      (link text : Str) (o request_url next : Option U)
      → ((v : U) → o ≡ some v → HasLink link v)
      → resolved parse resolve text o request_url ≡ ok next
      → Leads link request_url next
  unfolding resolved
  resolved-Leads link text none request_url next has h = absurd (err-ne-ok h)
  resolved-Leads link text (some v) none next has h =
      subst (Leads link none) (ok_injective h) (inr (v, has v refl, refl))
  resolved-Leads link text (some v) (some base) next has h =
      subst (Leads link (some base)) (ok_injective h) (v, base, has v refl, refl, refl)

  parsed_link-Leads :
      (link : Str) (o : Option (Str × Str)) (request_url next : Option U)
      → IsCut link b'>' o
      → parsed_link parse resolve (b'<' ∷ link) o request_url ≡ ok next
      → Leads (b'<' ∷ link) request_url next
  unfolding parsed_link
  parsed_link-Leads link none request_url next cut h = absurd (err-ne-ok h)
  parsed_link-Leads link (some (inside, rest)) request_url next (e, lacks) h =
      resolved-Leads (b'<' ∷ link) inside (parse inside) request_url next
        (λ v p. (inside, rest, ap (λ t. b'<' ∷ t) e, lacks, p)) h

  pub next_page_url-Leads :
      (link : Str) (request_url next : Option U)
      → next_page_url parse resolve link request_url ≡ ok next
      → Leads link request_url next
  unfolding next_page_url
  next_page_url-Leads [] request_url next h =
      subst (Leads [] request_url) (ok_injective h) (inl refl)
  next_page_url-Leads (c ∷ link) request_url next h = elim (Bool-cases (c == b'<')) [
    | inr e ↦ absurd (err-ne-ok (rw e at h))
    | inl e ↦
        (let q = (==_iff c b'<').0 e in
          subst (λ x. Leads (x ∷ link) request_url next) (sym q)
            (parsed_link-Leads link (cut_first link b'>') request_url next
              (cut_first-IsCut link b'>')
              (subst
                (λ x.
                  parsed_link parse resolve (x ∷ link) (cut_first link b'>') request_url ≡ ok next)
                q (rw e at h))))
  ]
