-- ===== src/Remote/Listing/Pages.antt =====
-- What is returned by the loop over the pages of pkg/v1/remote/list.go and catalog.go.
use go_containerregistry.Prelude.{
  ℕ, zero, suc, ◌≤◌, ◌≡◌, ◌↔◌, refl, sym, ap, ◌∙◌, subst, List, [], ◌∷◌, ◌++◌, append_assoc,
  append-nil, length, Option, none, some, some_injective, Str, Result, ok, err, ok_injective,
  err-ne-ok, arith,
}
use go_containerregistry.Transport.Errors.{Diagnostic}
use go_containerregistry.Remote.Listing.Rounds.{
  IsServed, last_page, linked_page, Gives-page, page-Gives,
}
use go_containerregistry.Remote.Act.{Act}
use go_containerregistry.Remote.Listing.{
  ListError, Page, kept, page, after_page, list_loop, list_all,
}

-- What a list of pages gives, of which each has names or leaves them out: the names of each in
-- order, and those of the page before again where a page leaves them out.
abbrev pub listed : List Str → List (Option (List Str)) → List Str
listed before [] = []
listed before (none ∷ pages) = before ++ listed before pages
listed before (some names ∷ pages) = names ++ listed names pages

listed-kept :
    (before : List Str) (o : Option (List Str)) (pages : List (Option (List Str)))
    → listed before (o ∷ pages) ≡ kept before o ++ listed (kept before o) pages
unfolding kept
listed-kept before none pages = refl
listed-kept before (some names) pages = refl

module _ {U W : Type 0} (parse : Str → Option U) (resolve : U → U → U)
    (get : U → Act W ListError (Page U)) (decode_errors : Str → List Diagnostic)
    (read : List ℕ → Result ListError (Option (List Str))) where
  abbrev again : ℕ → U → List Str → List Str → W → Option (Result ListError (List Str)) × W
  again fuel u parsed acc w = list_loop parse resolve get decode_errors read fuel u parsed acc w

  abbrev afterwards :
      ℕ
      → List Str
      → Result ListError (List Str × Option U) × W
      → Option (Result ListError (List Str)) × W
  afterwards fuel acc o = after_page parse resolve get decode_errors read acc o (again fuel)

  -- what is returned, with the names of one more page in front
  listed-more :
      (acc before : List Str) (o : Option (List Str)) (pages : List (Option (List Str)))
      → (acc ++ kept before o) ++ listed (kept before o) pages ≡ acc ++ listed before (o ∷ pages)
  listed-more acc before o pages =
      append_assoc acc (kept before o) (listed (kept before o) pages)
      ∙ ap (λ x. acc ++ x) (sym (listed-kept before o pages))

  IsServed-list_loop :
      (fuel : ℕ) {u : U} {w w' : W} {pages : List (Option (List Str))} (parsed acc : List Str)
      → IsServed parse resolve get decode_errors read u w pages w'
      → length pages ≤ fuel
      → again fuel u parsed acc w ≡ (some (ok (acc ++ listed parsed pages)), w')
  unfolding list_loop after_page
  IsServed-list_loop zero parsed acc (last_page g e) l = absurd (omega arith)
  IsServed-list_loop zero parsed acc (linked_page g e s) l = absurd (omega arith)
  IsServed-list_loop (suc fuel) {u} {w} {w'} parsed acc (last_page {p = p} {names = names} g e) l =
      ap (afterwards fuel acc)
        (Gives-page parse resolve get decode_errors read u parsed p names none w w' g e)
      ∙ ap (λ x. (some (ok x), w'))
          (sym (append-nil (acc ++ kept parsed names)) ∙ listed-more acc parsed names [])
  IsServed-list_loop (suc fuel) {u} {w} {w'} parsed acc
        (linked_page {u' = u'} {p = p} {names = names} {pages = pages} {w' = v} g e s) l =
      ap (afterwards fuel acc)
        (Gives-page parse resolve get decode_errors read u parsed p names (some u') w v g e)
      ∙ IsServed-list_loop fuel (kept parsed names) (acc ++ kept parsed names) s (omega arith)
      ∙ ap (λ x. (some (ok x), w')) (listed-more acc parsed names pages)

  -- the pages that a loop has read
  abbrev Read : ℕ → U → List Str → List Str → W → List Str → W → Type 0
  Read fuel u parsed acc w names w' =
      (pages : List (Option (List Str))) × IsServed parse resolve get decode_errors read u w pages
        w'
      × (length pages ≤ fuel)
      × (names ≡ acc ++ listed parsed pages)

  after-Read :
      (fuel : ℕ) (u : U) (parsed acc names : List Str) (w w' : W)
      (o : Result ListError (List Str × Option U) × W)
      → ((v : U) (now : List Str) (w1 : W)
          → again fuel v now (acc ++ now) w1 ≡ (some (ok names), w')
          → Read fuel v now (acc ++ now) w1 names w')
      → page parse resolve get decode_errors read u parsed w ≡ o
      → afterwards fuel acc o ≡ (some (ok names), w')
      → Read (suc fuel) u parsed acc w names w'
  unfolding after_page
  after-Read fuel u parsed acc names w w' (err e, v) rest h k =
      absurd (err-ne-ok (some_injective (ap (λ x. x.0) k)))
  after-Read fuel u parsed acc names w w' (ok (now, none), v) rest h k =
      let (p, given, g, e, q) =
        page-Gives parse resolve get decode_errors read u parsed now none w v h in
      (
        given ∷ [],
        subst (IsServed parse resolve get decode_errors read u w (given ∷ [])) (ap (λ x. x.1) k)
            (last_page g e),
        omega arith,
        sym (ok_injective (some_injective (ap (λ x. x.0) k)))
            ∙ ap (λ x. acc ++ x) q
            ∙ sym (append-nil (acc ++ kept parsed given))
            ∙ listed-more acc parsed given [],
      )
  after-Read fuel u parsed acc names w w' (ok (now, some u'), v) rest h k =
      let (p, given, g, e, q) =
        page-Gives parse resolve get decode_errors read u parsed now (some u') w v h in
      let (pages, served, l, n) = rest u' now v k in
      (
        given ∷ pages,
        linked_page g e served,
        omega arith,
        n ∙ ap (λ x. (acc ++ x) ++ listed x pages) q ∙ listed-more acc parsed given pages,
      )

  list_loop-Read :
      (fuel : ℕ) (u : U) (parsed acc names : List Str) (w w' : W)
      → again fuel u parsed acc w ≡ (some (ok names), w')
      → Read fuel u parsed acc w names w'
  unfolding list_loop
  list_loop-Read zero u parsed acc names w w' h = (let q = ap (λ x. x.0) h in cc)
  list_loop-Read (suc fuel) u parsed acc names w w' h =
      after-Read fuel u parsed acc names w w' (page parse resolve get decode_errors read u parsed w)
        (λ v now w1. list_loop-Read fuel v now (acc ++ now) names w1 w') refl h

  -- Run for `fuel` rounds, the loop over the pages ends without an error exactly if `fuel` pages or
  -- fewer are served from the first URL on, each with status 200 and linked from the one before, up to a
  -- last one. It returns the names of the pages in order then, where a page whose JSON leaves the
  -- names out gives those of the page before again.
  pub list_all_iff :
      (fuel : ℕ) (u : U) (w w' : W) (names : List Str)
      → (list_all parse resolve get decode_errors read fuel u w ≡ (some (ok names), w')) ↔ (
          (pages : List (Option (List Str))) × IsServed parse resolve get decode_errors read u w
            pages w'
          × (length pages ≤ fuel)
          × (names ≡ listed [] pages))
  unfolding list_all
  list_all_iff fuel u w w' names = (
    list_loop-Read fuel u [] [] names w w',
    λ (pages, served, l, e).
        IsServed-list_loop fuel [] [] served l ∙ ap (λ x. (some (ok x), w')) (sym e),
  )
