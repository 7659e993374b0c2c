-- ===== src/Remote/Writer.antt =====
-- The writer of pkg/v1/remote/write.go: one request after another, through a client whose `Do` is
-- `send`. A URL is its path and its query; the scheme and the host are the client's. `resolve` is
-- url.Parse of a Location, and the reference resolved against the URL of the request.
use go_containerregistry.Prelude.{
  ℕ, Bool, true, false, ◌&&◌, not, List, [], ◌∷◌, ◌++◌, any, Option, none, some, Str, codes, str_eq,
  is_empty, ◌==◌, if◌then◌else◌, Result, ok, err,
}
use go_containerregistry.Hash.{Hash, hash_string}
use go_containerregistry.Platform.Descriptors.{MediaType, is_distributable, hash_eq}
use go_containerregistry.Partial.Objects.{Fault, Layer}
use go_containerregistry.Transport.Errors.{Diagnostic, CheckFailure, check_error}
use go_containerregistry.Transport.Values.{get, set_value}
use go_containerregistry.Retry.Wait.{Backoff, Floats}
use go_containerregistry.Retry.Attempts.{Retried, returned, retry, is_temporary}
use go_containerregistry.Remote.Act.{Act, done, fail_with, lift, ◌>>=◌, ◌>>◌}

pub record Url : Type 0 where
  pub path : Str
  pub query : List (Str × Str)

pub record Sent : Type 0 where
  pub method : Str
  pub url : Url
  pub content_type : Str
  pub body : List ℕ

pub record Received : Type 0 where
  pub status : ℕ
  pub headers : List (Str × Str)
  pub body : List ℕ

pub data WriteError : Type 0 where
  transport_failed : Str → WriteError
  check_failed : CheckFailure → WriteError
  missing_location : WriteError
  bad_location : Str → WriteError
  layer_failed : Fault → WriteError
  nil_argument : WriteError

unfoldable pub layer_result : {A : Type 0} → Result Fault A → Result WriteError A
layer_result (ok a) = ok a
layer_result (err e) = err (layer_failed e)

-- `/v2/<repository>/<rest>`
unfoldable pub repo_path : Str → Str → Str
repo_path repo rest = codes "/v2/" ++ (repo ++ b'/' ∷ rest)

unfoldable pub head_request : Str → Sent
head_request path = record {
  method = codes "HEAD";
  url = record { path = path; query = [] };
  content_type = [];
  body = [];
}

unfoldable pub initiate_query : Str → Str → List (Str × Str)
initiate_query from mount =
    if not (is_empty mount) && not (is_empty from)
    then (codes "mount", mount) ∷ (codes "from", from) ∷ []
    else []

-- three attempts, with 1 second after the first; the durations are in nanoseconds
abbrev pub upload_backoff : {F : Type 0} → F → F → Backoff F
upload_backoff factor jitter = record {
  duration = 1000000000;
  factor = factor;
  jitter = jitter;
  steps = 3;
  cap = 0;
}

module _ {W : Type 0} (send : Sent → Act W WriteError Received) (decode : Str → List Diagnostic)
    (resolve : Url → Str → Option Url) where
  -- transport.CheckError on a response
  unfoldable pub checked : Option CheckFailure → Act W WriteError Unit
  checked none = done tt
  checked (some e) = fail_with (check_failed e)

  unfoldable pub check : Received → List ℕ → Act W WriteError Unit
  unfolding checked
  check resp status_codes = checked (
      check_error decode (record { status_code = resp.status; body = ok resp.body; request = none })
        status_codes)

  unfoldable pub located : Str → Option Url → Act W WriteError Url
  located loc none = fail_with (bad_location loc)
  located loc (some u) = done u

  -- nextLocation, of a response to a request for `u`
  unfoldable pub next_location : Url → Received → Act W WriteError Url
  unfolding located
  next_location u resp =
      let loc = get resp.headers (codes "Location") in
      if is_empty loc then fail_with missing_location else located loc (resolve u loc)

  -- checkExistingBlob, and checkExistingManifest, whose Accept header the server does not read
  unfoldable pub exists_at : Str → Act W WriteError Bool
  unfolding head_request
  exists_at path = do
    resp ← send (head_request path)
    check resp (200 ∷ 404 ∷ [])
    done (resp.status == 200)

  unfoldable pub check_existing_blob : Str → Hash → Act W WriteError Bool
  unfolding exists_at
  check_existing_blob repo h = exists_at (repo_path repo (codes "blobs/" ++ hash_string h))

  unfoldable pub check_existing_manifest : Str → Hash → Act W WriteError Bool
  unfolding exists_at
  check_existing_manifest repo h = exists_at (repo_path repo (codes "manifests/" ++ hash_string h))

  -- the location for the upload, or none where the blob was mounted
  unfoldable pub started : Url → Received → Act W WriteError (Option Url)
  started u resp =
      if resp.status == 201 then done none else (next_location u resp >>= λ loc. done (some loc))

  -- initiateUpload
  unfoldable pub initiate_upload : Str → Str → Str → Act W WriteError (Option Url)
  unfolding initiate_query started
  initiate_upload repo from mount =
      let u : Url = record {
        path = repo_path repo (codes "blobs/uploads/");
        query = initiate_query from mount;
      } in
      (do
        resp ← send (record {
          method = codes "POST";
          url = u;
          content_type = codes "application/json";
          body = [];
        })
        check resp (201 ∷ 202 ∷ [])
        started u resp)

  -- streamBlob
  unfoldable pub stream_blob : List ℕ → Url → Act W WriteError Url
  stream_blob blob location = do
    resp ← send (record { method = codes "PATCH"; url = location; content_type = []; body = blob })
    check resp (204 ∷ 202 ∷ 201 ∷ [])
    next_location location resp

  -- commitBlob
  unfoldable pub commit_blob : Url → Str → Act W WriteError Unit
  commit_blob location digest = do
    resp ← send (record {
      method = codes "PUT";
      url = record location { query = set_value location.query (codes "digest") digest };
      content_type = [];
      body = [];
    })
    check resp (201 ∷ [])

  -- the upload of what `tryUpload` was given a location for
  unfoldable pub stream_and_commit : Layer → Option Url → Act W WriteError Unit
  stream_and_commit l none = lift (layer_result l.digest) >> done tt
  stream_and_commit l (some location) = do
    lift (layer_result l.media_type)
    blob ← lift (layer_result l.compressed)
    commit ← stream_blob blob location
    h ← lift (layer_result l.digest)
    commit_blob commit (hash_string h)

  -- `tryUpload`
  unfoldable pub try_upload : Str → Str → Str → Layer → Act W WriteError Unit
  unfolding stream_and_commit
  try_upload repo from mount l = do
    location ← initiate_upload repo from mount
    stream_and_commit l location

  -- an attempt of `tryUpload`, as Retry calls it
  unfoldable pub attempted : Result WriteError Unit × W → Option WriteError × W
  attempted (ok u, w) = (none, w)
  attempted (err e, w) = (some e, w)

  unfoldable pub attempt : Str → Str → Str → Layer → W → Option WriteError × W
  unfolding attempted
  attempt repo from mount l w = attempted (try_upload repo from mount l w)

  -- what Retry returns, as the result of `uploadOne`
  unfoldable pub retried : Retried WriteError × W → Result WriteError Unit × W
  retried (returned none, w) = (ok tt, w)
  retried (returned (some e), w) = (err e, w)
  retried (_, w) = (err nil_argument, w)

  -- `from`: the repository to mount from, in the registry of the writer
  unfoldable pub mount_from : Str → Option (Str × Str) → Str
  mount_from registry none = []
  mount_from registry (some (r, repo)) = if str_eq registry r then repo else []

  -- `factor` and `jitter` are the float64 3.0 and 0.1.
  module _ {F : Type 0} (floats : Floats F) (draws : ℕ → F) (factor jitter : F)
      (is_deadline : WriteError → Bool) (has_temporary : WriteError → Option Bool) where
    unfoldable pub try_three_times : Str → Str → Str → Layer → Act W WriteError Unit
    try_three_times repo from mount l w = retried (
        retry floats draws (some (attempt repo from mount l))
          (some (is_temporary is_deadline has_temporary)) (upload_backoff factor jitter) w)

    unfoldable pub unless_existing : Act W WriteError Unit → Bool → Act W WriteError Unit
    unless_existing upload true = done tt
    unless_existing upload false = upload

    unfoldable pub upload_digest :
        Str → Str → Option (Str × Str) → Layer → Result Fault Hash → Act W WriteError Unit
    unfolding unless_existing mount_from
    upload_digest registry repo mountable l (ok h) = do
      existing ← check_existing_blob repo h
      unless_existing (try_three_times repo (mount_from registry mountable) (hash_string h) l)
          existing
    upload_digest registry repo mountable l (err e) =
        try_three_times repo (mount_from registry mountable) [] l

    -- uploadOne, of a layer that is a MountableLayer of `mountable`, if there is one; a layer that
    -- is streamed has no digest before
    unfoldable pub upload_one : Str → Str → Option (Str × Str) → Layer → Act W WriteError Unit
    unfolding upload_digest
    upload_one registry repo mountable l = upload_digest registry repo mountable l l.digest

  -- commitManifest, of the raw manifest and its media type
  unfoldable pub commit_manifest : Str → Str → List ℕ → MediaType → Act W WriteError Unit
  commit_manifest repo identifier raw mt = do
    resp ← send (record {
      method = codes "PUT";
      url = record { path = repo_path repo (codes "manifests/" ++ identifier); query = [] };
      content_type = mt;
      body = raw;
    })
    check resp (200 ∷ 201 ∷ 202 ∷ [])

-- The loop of `Write`: the layers to upload, given the digests of those that are being uploaded.
unfoldable pub to_upload : List Layer → List Hash → Result Fault (List Layer)
to_upload [] uploaded = ok []
to_upload (l ∷ ls) uploaded = elim (l.media_type) [
  | err e ↦ err e
  | ok mt ↦
      let rest = to_upload ls uploaded in
      if not (is_distributable mt) then rest else elim (l.digest) [
        | err e ↦ and_then l rest
        | ok h ↦
            let unseen = to_upload ls (h ∷ uploaded) in
            if any (λ k. hash_eq k h) uploaded then rest else and_then l unseen
      ]
]
  where
    and_then : Layer → Result Fault (List Layer) → Result Fault (List Layer)
    and_then l (ok ls) = ok (l ∷ ls)
    and_then l (err e) = err e
