-- ===== src/Remote/Listing/Rounds.antt =====
-- One round of the loop over the pages of pkg/v1/remote/list.go and catalog.go.
use go_containerregistry.Prelude.{
  ℕ, zero, suc, ◌≡◌, refl, sym, ap, ◌∙◌, List, [], ◌∷◌, Option, none, some, some_injective, Str,
  Result, ok, err, ok_injective, err-ne-ok,
}
use go_containerregistry.Transport.Errors.{Diagnostic, CheckFailure, check_error}
use go_containerregistry.Transport.Checked.{IsOneOf, check_error_iff}
use go_containerregistry.Remote.Act.{Act, done, lift, continue-ok, step-ok, ◌>>=◌, ◌>>◌}
use go_containerregistry.Remote.Listing.{
  ListError, Page, kept, list_checked, next_page_url, page_from, page,
}
use go_containerregistry.Remote.Listing.Links.{
  IsLast, LeadsTo, Leads, Leads-next_page_url, next_page_url-Leads,
}

only-200 : (n : ℕ) → IsOneOf n (200 ∷ []) → n ≡ 200
only-200 n (zero, h) = sym (some_injective h)
only-200 n (suc i, h) = cc

module _ {U W : Type 0} (parse : Str → Option U) (resolve : U → U → U)
    (get : U → Act W ListError (Page U)) (decode_errors : Str → List Diagnostic)
    (read : List ℕ → Result ListError (Option (List Str))) where
  -- A GET that is answered with status 200 by a page whose names can be read.
  abbrev pub Gives : U → W → Page U → Option (List Str) → W → Type 0
  Gives u w p names w' =
      (get u w ≡ (ok p, w')) × (p.answer.status_code ≡ 200) × (read p.body ≡ ok names)

  -- The pages that are served from a URL on, each linked from the one before, up to a last one.
  pub data IsServed : U → W → List (Option (List Str)) → W → Type 0 where
    last_page :
        {u : U} {p : Page U} {names : Option (List Str)} {w w' : W}
        → Gives u w p names w'
        → IsLast parse resolve p.link p.request_url
        → IsServed u w (names ∷ []) w'
    linked_page :
        {u u' : U} {p : Page U} {names : Option (List Str)} {pages : List (Option (List Str))}
        {w w' w'' : W}
        → Gives u w p names w'
        → LeadsTo parse resolve p.link p.request_url u'
        → IsServed u' w' pages w''
        → IsServed u w (names ∷ pages) w''

  checked-ok :
      (p : Page U)
      → p.answer.status_code ≡ 200
      → check_error decode_errors p.answer (200 ∷ []) ≡ none
  checked-ok p h = (check_error_iff decode_errors p.answer (200 ∷ [])).1 (0, ap some (sym h))

  abbrev round : U → List Str → W → Result ListError (List Str × Option U) × W
  round u parsed w = page parse resolve get decode_errors read u parsed w

  -- one round of the loop on a page that is given
  pub Gives-page :
      (u : U) (parsed : List Str) (p : Page U) (names : Option (List Str)) (next : Option U)
      (w w' : W)
      → Gives u w p names w'
      → Leads parse resolve p.link p.request_url next
      → round u parsed w ≡ (ok (kept parsed names, next), w')
  unfolding page page_from list_checked
  Gives-page u parsed p names next w w' (g, status, r) leads =
      let checked = checked-ok p status in
      let linked = Leads-next_page_url parse resolve p.link p.request_url next leads in
      step-ok (get u) (page_from parse resolve get decode_errors read parsed) w w' p g
      ∙ rw (checked, r, linked) refl

  status-200 :
      (p : Page U)
      → check_error decode_errors p.answer (200 ∷ []) ≡ none
      → p.answer.status_code ≡ 200
  status-200 p h =
      only-200 p.answer.status_code ((check_error_iff decode_errors p.answer (200 ∷ [])).0 h)

  abbrev inner :
      List Str
      → Option CheckFailure
      → Result ListError (Option (List Str))
      → Result ListError (Option U)
      → Act W ListError (List Str × Option U)
  inner parsed o r n =
      list_checked parse resolve get decode_errors read o
      >> (lift r >>= λ names. (lift n >>= λ next. done (kept parsed names, next)))

  inner-ok :
      (parsed now : List Str) (next : Option U) (w w' : W) (o : Option CheckFailure)
      (r : Result ListError (Option (List Str))) (n : Result ListError (Option U))
      → inner parsed o r n w ≡ (ok (now, next), w')
      → (names : Option (List Str)) × (o ≡ none)
        × (r ≡ ok names)
        × (n ≡ ok next)
        × (now ≡ kept parsed names)
        × (w ≡ w')
  unfolding list_checked
  inner-ok parsed now next w w' (some e) r n h = absurd (err-ne-ok (ap (λ x. x.0) h))
  inner-ok parsed now next w w' none (err e) n h = absurd (err-ne-ok (ap (λ x. x.0) h))
  inner-ok parsed now next w w' none (ok names) (err e) h = absurd (err-ne-ok (ap (λ x. x.0) h))
  inner-ok parsed now next w w' none (ok names) (ok next') h =
      let e = ok_injective (ap (λ x. x.0) h) in
      (names, refl, refl, ap (λ x. ok x.1) e, sym (ap (λ x. x.0) e), ap (λ x. x.1) h)

  pub page-Gives :
      (u : U) (parsed now : List Str) (next : Option U) (w w' : W)
      → round u parsed w ≡ (ok (now, next), w')
      → (p : Page U) × (names : Option (List Str)) × Gives u w p names w'
        × Leads parse resolve p.link p.request_url next
        × (now ≡ kept parsed names)
  unfolding page page_from
  page-Gives u parsed now next w w' h =
      let (p, v, g, h') =
        continue-ok (get u w) (page_from parse resolve get decode_errors read parsed) w' (now, next)
          h in
      let (names, c, r, n, k, same) =
        inner-ok parsed now next v w' (check_error decode_errors p.answer (200 ∷ [])) (read p.body)
          (next_page_url parse resolve p.link p.request_url) h' in
      (
        p,
        names,
        (g ∙ ap (λ x. (ok p, x)) same, status-200 p c, r),
        next_page_url-Leads parse resolve p.link p.request_url next n,
        k,
      )
