-- ===== src/Transport/Errors.antt =====
-- pkg/v1/remote/transport/error.go. The decoding of the body, which is JSON, is a parameter, and so
-- is the text of a status, http.StatusText. A detail is kept as the text that it is printed as.
use go_containerregistry.Prelude.{
  ℕ, Bool, true, false, List, [], ◌∷◌, ◌++◌, any, all, map, Option, none, some, Str, codes, str_eq,
  is_empty, ◌==◌, if◌then◌else◌, Result, ok, err,
}
use go_containerregistry.Server.Http.{decimal}
use go_containerregistry.Platform.Sorting.{str_le}

pub record Diagnostic : Type 0 where
  pub code : Str
  pub message : Str
  pub detail : Option Str

-- the method of the request and its URL, already redacted by `redact_url`
pub record Asked : Type 0 where
  pub method : Str
  pub url : Str

pub record Error : Type 0 where
  pub errors : List Diagnostic
  pub status_code : ℕ
  pub raw_body : Str
  pub request : Option Asked

abbrev pub temporary_error_codes : List Str
temporary_error_codes = codes "BLOB_UPLOAD_INVALID" ∷ codes "TOOMANYREQUESTS" ∷ []

unfoldable pub is_nil : List Diagnostic → Bool
is_nil [] = true
is_nil (d ∷ ds) = false

-- Error.Temporary
unfoldable pub temporary : Error → Bool
unfolding is_nil
temporary e =
    if is_nil e.errors then false else all (λ d. any (str_eq d.code) temporary_error_codes) e.errors

-- `"; " + detail`
with_detail : Str → Option Str → Str
with_detail msg none = msg
with_detail msg (some detail) = msg ++ codes "; " ++ detail

unfoldable pub diagnostic_string : Diagnostic → Str
unfolding with_detail
diagnostic_string d = with_detail (d.code ++ codes ": " ++ d.message) d.detail

unfoldable pub join_with : Str → List Str → Str
join_with sep [] = []
join_with sep (p ∷ []) = p
join_with sep (p ∷ q ∷ ps) = p ++ sep ++ join_with sep (q ∷ ps)

abbrev pub param_whitelist : List Str
param_whitelist =
    codes "scope"
    ∷ codes "service"
    ∷ codes "mount"
    ∷ codes "from"
    ∷ codes "digest"
    ∷ codes "n"
    ∷ codes "last"
    ∷ []

abbrev pub redacted : Str
redacted = codes "REDACTED"

-- a key of a query, with its values
abbrev pub Entry : Type 0
Entry = Str × List Str

unfoldable pub redact_entry : Entry → Entry
redact_entry (k, vs) = (k, if any (str_eq k) param_whitelist then vs else map (λ v. redacted) vs)

-- url.Values.Encode writes the entries in the order of their keys.
unfoldable pub insert_entry : Entry → List Entry → List Entry
insert_entry e [] = e ∷ []
insert_entry e (f ∷ fs) =
    let rest = insert_entry e fs in if str_le e.0 f.0 then e ∷ f ∷ fs else f ∷ rest

unfoldable pub sort_entries : List Entry → List Entry
sort_entries [] = []
sort_entries (e ∷ es) = insert_entry e (sort_entries es)

-- The query of redactURL: from the entries of a map, in any order, those that are written.
unfoldable pub redact_query : List Entry → List Entry
redact_query qs = sort_entries (map redact_entry qs)

module _ (status_text : ℕ → Str) where
  was_head : Option Asked → Bool
  was_head none = false
  was_head (some r) = str_eq r.method (codes "HEAD")

  unexpected : ℕ → Str
  unexpected status =
      codes "unexpected status code " ++ decimal status ++ codes " " ++ status_text status

  -- Error.responseErr
  response_err_of : List Diagnostic → Error → Str
  unfolding was_head unexpected
  response_err_of [] e =
      if is_empty e.raw_body
      then (if was_head e.request
          then unexpected e.status_code
            ++ codes " (HEAD responses have no body, use GET for details)"
          else unexpected e.status_code)
      else unexpected e.status_code ++ codes ": " ++ e.raw_body
  response_err_of (d ∷ []) e = diagnostic_string d
  response_err_of (d ∷ d' ∷ ds) e =
      codes "multiple errors returned: "
      ++ join_with (codes "; ") (map diagnostic_string (d ∷ d' ∷ ds))

  unfoldable pub response_err : Error → Str
  unfolding response_err_of
  response_err e = response_err_of e.errors e

  request_prefix : Option Asked → Str
  request_prefix none = []
  request_prefix (some r) = r.method ++ codes " " ++ r.url ++ codes ": "

  -- Error.Error
  unfoldable pub error_string : Error → Str
  unfolding request_prefix
  error_string e = request_prefix e.request ++ response_err e

-- A response as `CheckError` reads it; reading the body may fail.
pub record Answer : Type 0 where
  pub status_code : ℕ
  pub body : Result Str Str
  pub request : Option Asked

pub data CheckFailure : Type 0 where
  read_failed : Str → CheckFailure
  structured : Error → CheckFailure

unfoldable pub structured_error :
    (Str → List Diagnostic) → Answer → Result Str Str → Option CheckFailure
structured_error decode resp (err e) = some (read_failed e)
structured_error decode resp (ok b) = some (
    structured (record {
      errors = decode b;
      status_code = resp.status_code;
      raw_body = b;
      request = resp.request;
    }))

-- CheckError: `none` is nil
unfoldable pub check_error : (Str → List Diagnostic) → Answer → List ℕ → Option CheckFailure
unfolding structured_error
check_error decode resp status_codes =
    if any (λ c. resp.status_code == c) status_codes
    then none
    else structured_error decode resp resp.body
