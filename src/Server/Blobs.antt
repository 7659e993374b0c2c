-- ===== src/Server/Blobs.antt =====
-- pkg/registry/blobs.go: the store of blobs, and its handler, one function for each of the
-- branches of `handle`. The handler takes its lock around every access, so a request is one step.
-- `sum` is sha256.Sum256.
pub mod Branches
pub mod Content
pub mod Upload
pub mod Fetched
use go_containerregistry.Prelude.{
  ℕ, zero, suc, ◌+◌, ◌-◌, ◌*◌, ◌^◌, Bool, true, false, ◌&&◌, ◌||◌, not, List, [], ◌∷◌, ◌++◌, Option,
  none, some, Str, codes, contains, is_empty, str_eq, split, last_or, drop_last, length, ltb, leb,
  ◌==◌, if◌then◌else◌, StrMap, empty_map, put, delete,
}
use go_containerregistry.Hash.{hex_encode}
use go_containerregistry.Server.Http.{
  Request, Response, RegError, Outcome, respond, fail, panic, fixed, decimal,
}
use go_containerregistry.Server.Paths.{path_join}

pub record Blobs : Type 0 where
  pub contents : StrMap (List ℕ)
  pub uploads : StrMap (List ℕ)

abbrev pub no_blobs : Blobs
no_blobs = record { contents = empty_map; uploads = empty_map }

-- `elem := strings.Split(path, "/"); elem = elem[1:]`
unfoldable pub path_elems : Str → List Str
path_elems path = tail (split path b'/')
  where
    tail : List Str → List Str
    tail [] = []
    tail (e ∷ es) = es

-- `if elem[len(elem)-1] == "" { elem = elem[:len(elem)-1] }`, for a slice that is not empty
unfoldable pub trim_slash : List Str → List Str
trim_slash elems = if is_empty (last_or [] elems) then drop_last elems else elems

-- `elem[len(elem)-1-k]`
abbrev pub from_end : ℕ → List Str → Str
from_end zero elems = last_or [] elems
from_end (suc k) elems = from_end k (drop_last elems)

unfoldable pub drop_ends : ℕ → List Str → List Str
drop_ends zero elems = elems
drop_ends (suc k) elems = drop_ends k (drop_last elems)

unfoldable pub drop_first : List Str → List Str
drop_first [] = []
drop_first (e ∷ es) = es

-- `elem[1:len(elem)-k]`
unfoldable pub middle : ℕ → List Str → List Str
unfolding drop_ends drop_first
middle k elems = drop_first (drop_ends k elems)

-- isBlob; `none` is the panic at a path with no slash
unfoldable pub is_blob : Str → Option Bool
is_blob path =
    if length (path_elems path) == 0
    then none
    else (let elems = trim_slash (path_elems path) in
        some (
          leb 3 (length elems)
          && (str_eq (from_end 1 elems) (codes "blobs")
              || (str_eq (from_end 2 elems) (codes "blobs")
                  && str_eq (from_end 1 elems) (codes "uploads")))))

abbrev pub error : ℕ → Str → Str → Outcome
error status code message = fail (record { status = status; code = code; message = fixed message })

abbrev pub reply : ℕ → List (Str × Str) → List ℕ → Outcome
reply status headers body = respond (record { status = status; headers = headers; body = body })

abbrev pub or_empty : Option (List ℕ) → List ℕ
or_empty none = []
or_empty (some bytes) = bytes

pub data Number : Type 0 where
  number : Bool → ℕ → Str → Number

skip_spaces : Str → Str
skip_spaces [] = []
skip_spaces (c ∷ s) = let rest = skip_spaces s in if c == b' ' || c == b'\t' then rest else c ∷ s

-- the digits at the front: how many there are, their value, and the rest
scan_digits : ℕ → ℕ → Str → ℕ × ℕ × Str
scan_digits count value [] = (count, value, [])
scan_digits count value (c ∷ s) =
    let more = scan_digits (count + 1) (value * 10 + (c - b'0')) s in
    if leb b'0' c && leb c b'9' then more else (count, value, c ∷ s)

scanned : Bool → ℕ × ℕ × Str → Option Number
scanned negative (count, value, rest) =
    if count == 0 || leb (if negative then 2 ^ 63 + 1 else 2 ^ 63) value
    then none
    else some (number negative value rest)

scan_sign : Str → Option Number
unfolding scan_digits scanned
scan_sign [] = none
scan_sign (c ∷ s) =
    if c == b'-'
    then scanned true (scan_digits 0 0 s)
    else if c == b'+'
    then scanned false (scan_digits 0 0 s)
    else scanned false (scan_digits 0 0 (c ∷ s))

after_dash : Str → Option Str
after_dash [] = none
after_dash (c ∷ s) = if c == b'-' then some s else none

end_of_range : Option Str → Bool
unfolding scan_sign skip_spaces
end_of_range none = false
end_of_range (some s) = elim (scan_sign (skip_spaces s)) [ none ↦ false | some n ↦ true ]

start_of_range : Option Number → Option (Bool × ℕ)
unfolding end_of_range after_dash
start_of_range none = none
start_of_range (some (number negative value rest)) =
    if end_of_range (after_dash rest) then some (negative, value) else none

-- `fmt.Sscanf(contentRange, "%d-%d", &start, &end)`: the sign and the size of `start`. What
-- stands behind the second number is not read, and `end` is not used.
unfoldable pub scan_range : Str → Option (Bool × ℕ)
unfolding start_of_range
scan_range s = start_of_range (scan_sign (skip_spaces s))

-- `start == n`, for a start with a sign
unfoldable pub starts_at : ℕ → Bool × ℕ → Bool
starts_at n (negative, value) = value == n && (not negative || value == 0)

-- `fmt.Sprintf("0-%d", n-1)`
unfoldable pub range_header : ℕ → Str
range_header zero = codes "0--1"
range_header (suc n) = codes "0-" ++ decimal n

unfoldable pub location : List Str → Str → Str
location middle_elems id =
    b'/' ∷ path_join (codes "v2" ∷ path_join middle_elems ∷ codes "blobs/uploads" ∷ id ∷ [])

-- `"sha256:" + hex.EncodeToString(rd[:])`
unfoldable pub content_digest : (List ℕ → List ℕ) → List ℕ → Str
content_digest sum bytes = codes "sha256:" ++ hex_encode (sum bytes)

unfoldable pub get_blob : Bool → Blobs → Str → Outcome
get_blob with_body b target = elim (b.contents target) [
  | none ↦ error 404 (codes "BLOB_UNKNOWN") (codes "Unknown blob")
  | some bytes ↦
      reply 200
        ((codes "Content-Length", decimal (length bytes))
          ∷ (codes "Docker-Content-Digest", target)
          ∷ [])
        (if with_body then bytes else [])
]

abbrev pub digest_mismatch : Outcome
digest_mismatch = error 400 (codes "DIGEST_INVALID") (codes "digest does not match contents")

abbrev pub created : Str → Outcome
created digest = reply 201 ((codes "Docker-Content-Digest", digest) ∷ []) []

-- POST with a digest: a whole upload in one request
unfoldable pub post_whole : (List ℕ → List ℕ) → Blobs → Request → Outcome × Blobs
post_whole sum b req =
    let d = content_digest sum req.body in
    if not (str_eq d req.digest)
    then (digest_mismatch, b)
    else (created d, record b { contents = put b.contents d req.body })

-- POST with no digest: the number of a new upload
unfoldable pub post_start : Blobs → Request → List Str → Outcome × Blobs
unfolding location
post_start b req elems = (
  reply 202
      ((codes "Location", location (middle 2 elems) (decimal req.fresh))
        ∷ (codes "Range", codes "0-0")
        ∷ [])
      [],
  b,
)

unfoldable pub accept_chunk : Blobs → List Str → Str → List ℕ → Outcome × Blobs
unfolding location range_header
accept_chunk b elems target bytes = (
  reply 204
      ((codes "Location", location (middle 3 elems) target)
        ∷ (codes "Range", range_header (length bytes))
        ∷ [])
      [],
  record b { uploads = put b.uploads target bytes },
)

-- PATCH with a Content-Range
unfoldable pub patch_chunk : Blobs → Request → List Str → Str → Outcome × Blobs
unfolding accept_chunk
patch_chunk b req elems target = elim (scan_range req.content_range) [
  | none ↦
      (error 416 (codes "BLOB_UPLOAD_UNKNOWN") (codes "We don't understand your Content-Range"), b)
  | some start ↦
      if not (starts_at (length (or_empty (b.uploads target))) start)
      then (
        error 416 (codes "BLOB_UPLOAD_UNKNOWN")
            (codes "Your content range doesn't match what we have"),
        b,
      )
      else accept_chunk b elems target (or_empty (b.uploads target) ++ req.body)
]

-- PATCH with no Content-Range
unfoldable pub patch_stream : Blobs → Request → List Str → Str → Outcome × Blobs
unfolding accept_chunk
patch_stream b req elems target = elim (b.uploads target) [
  | some bytes ↦ (
    error 400 (codes "BLOB_UPLOAD_INVALID")
        (codes "Stream uploads after first write are not allowed"),
    b,
  )
  | none ↦ accept_chunk b elems target req.body
]

-- PUT with a digest: the end of an upload
unfoldable pub put_upload : (List ℕ → List ℕ) → Blobs → Request → Str → Outcome × Blobs
put_upload sum b req target =
    let bytes = or_empty (b.uploads target) ++ req.body in
    let d = content_digest sum bytes in
    if not (str_eq d req.digest) then (digest_mismatch, b) else (
      created d,
      record { contents = put b.contents d bytes; uploads = delete b.uploads target },
    )

-- The branches of `handle`.
pub data Branch : Type 0 where
  too_short head_blob read_blob whole start chunk stream no_digest finish unknown : Branch

-- The conditions of `handle`, in their order: the branch that returns.
unfoldable pub branch : Request → List Str → Branch
branch req elems =
    let target = from_end 0 elems in
    let service = from_end 1 elems in
    let method = λ (m : Str). str_eq req.method m in
    if ltb (length elems) 4
    then too_short
    else if method (codes "HEAD")
    then head_blob
    else if method (codes "GET")
    then read_blob
    else if method (codes "POST") && str_eq target (codes "uploads") && not (is_empty req.digest)
    then whole
    else if method (codes "POST") && str_eq target (codes "uploads") && is_empty req.digest
    then start
    else if method (codes "PATCH")
        && str_eq service (codes "uploads")
        && not (is_empty req.content_range)
    then chunk
    else if method (codes "PATCH") && str_eq service (codes "uploads") && is_empty req.content_range
    then stream
    else if method (codes "PUT") && str_eq service (codes "uploads") && is_empty req.digest
    then no_digest
    else if method (codes "PUT") && str_eq service (codes "uploads") && not (is_empty req.digest)
    then finish
    else unknown

unfoldable pub take_branch :
    (List ℕ → List ℕ) → Blobs → Request → List Str → Branch → Outcome × Blobs
take_branch sum b req elems too_short =
    (error 400 (codes "NAME_INVALID") (codes "blobs must be attached to a repo"), b)
take_branch sum b req elems head_blob = (get_blob false b (from_end 0 elems), b)
take_branch sum b req elems read_blob = (get_blob true b (from_end 0 elems), b)
take_branch sum b req elems whole = post_whole sum b req
take_branch sum b req elems start = post_start b req elems
take_branch sum b req elems chunk = patch_chunk b req elems (from_end 0 elems)
take_branch sum b req elems stream = patch_stream b req elems (from_end 0 elems)
take_branch sum b req elems no_digest =
    (error 400 (codes "DIGEST_INVALID") (codes "digest not specified"), b)
take_branch sum b req elems finish = put_upload sum b req (from_end 0 elems)
take_branch sum b req elems unknown =
    (error 400 (codes "METHOD_UNKNOWN") (codes "We don't understand your method + url"), b)

-- blobs.handle
unfoldable pub handle_blobs : (List ℕ → List ℕ) → Blobs → Request → Outcome × Blobs
handle_blobs sum b req =
    if length (path_elems req.path) == 0
    then (panic, b)
    else (let elems = trim_slash (path_elems req.path) in
        take_branch sum b req elems (branch req elems))
