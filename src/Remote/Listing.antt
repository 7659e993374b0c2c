-- ===== src/Remote/Listing.antt =====
-- The pages of pkg/v1/remote/list.go and catalog.go. `get` is a GET of a URL by the client, which a
-- cancelled context makes fail; `parse` is url.Parse of a link, and `resolve` the reference resolved
-- against the URL of the request. `parsed` is the variable that every page is decoded into: what a
-- page's JSON leaves out keeps its value. `read` decodes a body: the names that its JSON has, if it has
-- any.
pub mod Links
pub mod Rounds
pub mod Pages
use go_containerregistry.Prelude.{
  ℕ, zero, suc, List, [], ◌∷◌, ◌++◌, Option, none, some, Str, codes, ◌==◌, if◌then◌else◌, Result,
  ok, err,
}
use go_containerregistry.Transport.Errors.{Diagnostic, Answer, CheckFailure, check_error}
use go_containerregistry.Transport.Addresses.{cut_first}
use go_containerregistry.Remote.Act.{Act, done, fail_with, lift, ◌>>=◌, ◌>>◌}

pub data ListError : Type 0 where
  request_failed : Str → ListError
  check_failed : CheckFailure → ListError
  decode_failed : Str → ListError
  missing_open : Str → ListError
  missing_close : Str → ListError
  bad_link : Str → ListError

-- A response: the Link of its header, and the URL of its request, if it has one.
pub record Page (U : Type 0) : Type 0 where
  pub answer : Answer
  pub body : List ℕ
  pub link : Str
  pub request_url : Option U

-- the variable after a page's JSON is decoded into it
unfoldable pub kept : List Str → Option (List Str) → List Str
kept parsed none = parsed
kept parsed (some names) = names

module _ {U : Type 0} (parse : Str → Option U) (resolve : U → U → U) where
  unfoldable pub resolved : Str → Option U → Option U → Result ListError (Option U)
  resolved link none request_url = err (bad_link link)
  resolved link (some u) none = ok none
  resolved link (some u) (some base) = ok (some (resolve base u))

  unfoldable pub parsed_link : Str → Option (Str × Str) → Option U → Result ListError (Option U)
  unfolding resolved
  parsed_link link none request_url = err (missing_close link)
  parsed_link link (some (inside, after)) request_url = resolved inside (parse inside) request_url

  -- getNextPageURL
  unfoldable pub next_page_url : Str → Option U → Result ListError (Option U)
  unfolding parsed_link
  next_page_url [] request_url = ok none
  next_page_url (c ∷ link) request_url =
      if c == b'<'
      then parsed_link (c ∷ link) (cut_first link b'>') request_url
      else err (missing_open (c ∷ link))

  module _ {W : Type 0} (get : U → Act W ListError (Page U)) (decode_errors : Str → List Diagnostic)
      (read : List ℕ → Result ListError (Option (List Str))) where
    unfoldable pub list_checked : Option CheckFailure → Act W ListError Unit
    list_checked none = done tt
    list_checked (some e) = fail_with (check_failed e)

    -- what is parsed from a response, and the next page, if there is one
    unfoldable pub page_from : List Str → Page U → Act W ListError (List Str × Option U)
    unfolding list_checked kept
    page_from parsed resp = do
      list_checked (check_error decode_errors resp.answer (200 ∷ []))
      names ← lift (read resp.body)
      next ← lift (next_page_url resp.link resp.request_url)
      done (kept parsed names, next)

    -- one round of the loop
    unfoldable pub page : U → List Str → Act W ListError (List Str × Option U)
    unfolding page_from
    page u parsed = get u >>= page_from parsed

    -- what follows a round, of which `again` is the rest of the loop
    unfoldable pub after_page :
        List Str
        → Result ListError (List Str × Option U) × W
        → (U → List Str → List Str → W → Option (Result ListError (List Str)) × W)
        → Option (Result ListError (List Str)) × W
    after_page acc (err e, w) again = (some (err e), w)
    after_page acc (ok (now, none), w) again = (some (ok (acc ++ now)), w)
    after_page acc (ok (now, some u), w) again = again u now (acc ++ now) w

    -- The loop of ListWithContext and of Catalog; `none` is out of fuel.
    unfoldable pub list_loop :
        ℕ → U → List Str → List Str → W → Option (Result ListError (List Str)) × W
    unfolding after_page
    list_loop zero u parsed acc w = (none, w)
    list_loop (suc fuel) u parsed acc w =
        after_page acc (page u parsed w) (λ u' parsed' acc' w'. list_loop fuel u' parsed' acc' w')

    -- ListWithContext and Catalog, from the first URL on
    unfoldable pub list_all : ℕ → U → W → Option (Result ListError (List Str)) × W
    list_all fuel u w = list_loop fuel u [] [] w
