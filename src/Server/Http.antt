-- ===== src/Server/Http.antt =====
-- What the handlers of pkg/registry read of a request and write to a response, and
-- pkg/registry/error.go. A map of headers is the list of its settings, in the order of the calls.
use go_containerregistry.Prelude.{
  ℕ, zero, suc, ◌+◌, ◌/◌, ◌%◌, List, [], ◌∷◌, Str, ltb, if◌then◌else◌,
}
use go_containerregistry.Hash.{Hash}

-- `digest` is the query's value, empty if there is none; `fresh` is the number that
-- `rand.Int63()` would return.
pub record Request : Type 0 where
  pub method : Str
  pub path : Str
  pub digest : Str
  pub content_range : Str
  pub content_type : Str
  pub body : List ℕ
  pub fresh : ℕ

pub record Response : Type 0 where
  pub status : ℕ
  pub headers : List (Str × Str)
  pub body : List ℕ

-- A message is a fixed text, the text of a parser's error, or names a missing manifest.
pub data Message : Type 0 where
  fixed : Str → Message
  parser_error : Message
  sub_manifest_not_found : Hash → Message

pub record RegError : Type 0 where
  pub status : ℕ
  pub code : Str
  pub message : Message

-- A handler responds, or returns an error that is written as the response, or panics.
pub data Outcome : Type 0 where
  respond : Response → Outcome
  fail : RegError → Outcome
  panic : Outcome

unfoldable pub digits : ℕ → ℕ → Str → Str
digits zero n out = out
digits (suc fuel) n out =
    let rest = digits fuel (n / 10) ((48 + n % 10) ∷ out) in
    if ltb n 10 then (48 + n % 10) ∷ out else rest

-- fmt.Sprint of a number; there are at most `n + 1` digits
unfoldable pub decimal : ℕ → Str
unfolding digits
decimal n = digits (suc n) n []
