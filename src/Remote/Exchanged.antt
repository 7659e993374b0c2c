-- ===== src/Remote/Exchanged.antt =====
-- Each request of uploadOne in pkg/v1/remote/write.go against the registry of pkg/registry.
use go_containerregistry.Prelude.{
  ℕ, ◌+◌, ◌≡◌, refl, ap, ◌∙◌, Bool, true, false, any, length, List, [], ◌∷◌, ◌++◌, All, Option,
  none, some, Str, codes, is_empty, str_eq, ◌==◌, arith, put, delete, Result, ok,
}
use go_containerregistry.Hash.{Hash}
use go_containerregistry.Platform.Descriptors.{annotation_at}
use go_containerregistry.Transport.Errors.{Diagnostic, check_error}
use go_containerregistry.Server.Http.{Response, RegError, Outcome, respond, decimal}
use go_containerregistry.Server.Paths.Plain.{IsPlain}
use go_containerregistry.Server.Blobs.{
  Blobs, content_digest, range_header, get_blob, or_empty, error, reply,
}
use go_containerregistry.Server.Routes.{Registry, v2}
use go_containerregistry.Transport.Values.{get, set_value}
use go_containerregistry.Remote.Act.{Act, done, continue, ◌>>=◌, ◌>>◌, step-ok}
use go_containerregistry.Remote.Writer.{
  Url, Sent, Received, WriteError, repo_path, initiate_query, checked, check, head_request,
  exists_at, started, next_location, initiate_upload, stream_blob, commit_blob,
}
use go_containerregistry.Remote.Server.{Site, to_request, received, send}
use go_containerregistry.Remote.Routed.{repo, upload_path, uploads_path}
use go_containerregistry.Remote.Served.{v2-start, v2-stream, v2-finish, v2-head}

abbrev pub root_url : Str → Url
root_url path = record { path = path; query = [] }

query-digest : (from mount : Str) → get (initiate_query from mount) (codes "digest") ≡ []
unfolding get annotation_at initiate_query str_eq
query-digest from mount = ground arith

get_blob-missing :
    (b : Blobs) (d : Str)
    → b.contents d ≡ none
    → get_blob false b d ≡ error 404 (codes "BLOB_UNKNOWN") (codes "Unknown blob")
unfolding get_blob
get_blob-missing b d n = ground arith

get_blob-stored :
    (b : Blobs) (d : Str) (bytes : List ℕ)
    → b.contents d ≡ some bytes
    → get_blob false b d
      ≡ reply 200
          ((codes "Content-Length", decimal (length bytes))
            ∷ (codes "Docker-Content-Digest", d)
            ∷ [])
          []
unfolding get_blob
get_blob-stored b d bytes n = ground arith

-- the site, after a request
abbrev pub next_site : Registry → Site → Site
next_site r w = record { registry = r; drawn = w.drawn + 1 }

-- the registry, after an upload took a body, and after what it holds was stored
abbrev pub streamed : Registry → Str → List ℕ → Registry
streamed r id bytes = record r { blobs = record r.blobs { uploads = put r.blobs.uploads id bytes } }

abbrev pub committed : Registry → Str → Str → Registry
committed r id d = record r {
  blobs = record {
    contents = put r.blobs.contents d (or_empty (r.blobs.uploads id) ++ []);
    uploads = delete r.blobs.uploads id;
  };
}

module _ (sum : List ℕ → List ℕ) (parse_index : List ℕ → Option (List Hash)) (randoms : ℕ → ℕ)
    (encode_error : RegError → List ℕ) (decode : Str → List Diagnostic)
    (resolve : Url → Str → Option Url) where
  abbrev pub net : Sent → Site → Result WriteError Received × Site
  net = send sum parse_index randoms encode_error

  abbrev as_received : Response → Received
  as_received resp = record { status = resp.status; headers = resp.headers; body = resp.body }

  send-respond :
      (req : Sent) (w : Site) (resp : Response) (r : Registry)
      → v2 sum parse_index w.registry (to_request req (randoms w.drawn)) ≡ (respond resp, r)
      → net req w ≡ (ok (as_received resp), next_site r w)
  unfolding send received
  send-respond req w resp r h =
      ap (λ o. (received sum parse_index randoms encode_error o.0, next_site o.1 w)) h

  pub check-ok :
      (resp : Received) (status_codes : List ℕ) (w : Site)
      → any (λ c. resp.status == c) status_codes ≡ true
      → check net decode resolve resp status_codes w ≡ (ok tt, w)
  unfolding check checked check_error
  check-ok resp status_codes w h = rw h refl

  next_location-path :
      (u : Url) (p : Str) (resp : Received) (w : Site)
      → get resp.headers (codes "Location") ≡ b'/' ∷ p
      → resolve u (b'/' ∷ p) ≡ some (root_url (b'/' ∷ p))
      → next_location net decode resolve u resp w ≡ (ok (root_url (b'/' ∷ p)), w)
  unfolding next_location
  next_location-path u p resp w h located = rw (h, located) refl

  -- a request, the check of its answer, and what follows
  exchange :
      {B : Type 0} (req : Sent) (status_codes : List ℕ) (k : Received → Act Site WriteError B)
      (w : Site) (resp : Response) (r : Registry)
      → v2 sum parse_index w.registry (to_request req (randoms w.drawn)) ≡ (respond resp, r)
      → any (λ c. resp.status == c) status_codes ≡ true
      → (net req >>= λ x. check net decode resolve x status_codes >> k x) w
        ≡ k (as_received resp) (next_site r w)
  exchange req status_codes k w resp r h o =
      step-ok (net req) (λ x. check net decode resolve x status_codes >> k x) w (next_site r w)
        (as_received resp) (send-respond req w resp r h)
      ∙ step-ok (check net decode resolve (as_received resp) status_codes)
          (λ u. k (as_received resp)) (next_site r w) (next_site r w) tt
          (check-ok (as_received resp) status_codes (next_site r w) o)

  started-path :
      (u : Url) (p : Str) (resp : Received) (w : Site)
      → (resp.status == 201) ≡ false
      → get resp.headers (codes "Location") ≡ b'/' ∷ p
      → resolve u (b'/' ∷ p) ≡ some (root_url (b'/' ∷ p))
      → started net decode resolve u resp w ≡ (ok (some (root_url (b'/' ∷ p))), w)
  unfolding started
  started-path u p resp w n h located = rw n (
      step-ok (next_location net decode resolve u resp) (λ loc. done (some loc)) w w
        (root_url (b'/' ∷ p)) (next_location-path u p resp w h located))

  module _ (s : Str) (ss : List Str) (plain : All IsPlain (s ∷ ss)) where
    abbrev pub at : Str → Url
    at id = root_url (upload_path s ss plain id)

    abbrev located_answer : ℕ → Str → Str → Response
    located_answer status id range = record {
      status = status;
      headers = (codes "Location", upload_path s ss plain id) ∷ (codes "Range", range) ∷ [];
      body = [];
    }

    abbrev post_request : Str → Str → Sent
    post_request from mount = record {
      method = codes "POST";
      url = record { path = uploads_path s ss plain; query = initiate_query from mount };
      content_type = codes "application/json";
      body = [];
    }

    -- initiateUpload: the registry draws the number of an upload and gives its Location
    pub initiate_upload-net :
        (from mount : Str) (w : Site)
        → ((u : Url)
            → resolve u (upload_path s ss plain (decimal (randoms w.drawn)))
              ≡ some (at (decimal (randoms w.drawn))))
        → initiate_upload net decode resolve (repo s ss plain) from mount w
          ≡ (ok (some (at (decimal (randoms w.drawn)))), next_site w.registry w)
    unfolding initiate_upload started repo_path to_request get annotation_at str_eq
    initiate_upload-net from mount w located =
        exchange (post_request from mount) (201 ∷ 202 ∷ [])
          (started net decode resolve (post_request from mount).url) w _ w.registry
          (v2-start sum parse_index w.registry
            (to_request (post_request from mount) (randoms w.drawn)) s ss plain refl refl
            (query-digest from mount))
          refl
        ∙ started-path (post_request from mount).url _
            (as_received (located_answer 202 (decimal (randoms w.drawn)) (codes "0-0")))
            (next_site w.registry w) refl refl (located (post_request from mount).url)

    abbrev patch_request : Str → List ℕ → Sent
    patch_request id bytes = record {
      method = codes "PATCH";
      url = at id;
      content_type = [];
      body = bytes;
    }

    -- streamBlob: an upload that holds nothing takes the body
    pub stream_blob-net :
        (id : Str) (bytes : List ℕ) (w : Site)
        → IsPlain id
        → w.registry.blobs.uploads id ≡ none
        → ((u : Url) → resolve u (upload_path s ss plain id) ≡ some (at id))
        → stream_blob net decode resolve bytes (at id) w
          ≡ (ok (at id), next_site (streamed w.registry id bytes) w)
    unfolding stream_blob repo_path to_request get annotation_at str_eq
    stream_blob-net id bytes w i u located =
        exchange (patch_request id bytes) (204 ∷ 202 ∷ 201 ∷ [])
          (next_location net decode resolve (at id)) w
          (located_answer 204 id (range_header (length bytes))) (streamed w.registry id bytes)
          (v2-stream sum parse_index w.registry
            (to_request (patch_request id bytes) (randoms w.drawn)) s ss plain id i refl refl refl
            u)
          refl
        ∙ next_location-path (at id) _
            (as_received (located_answer 204 id (range_header (length bytes))))
            (next_site (streamed w.registry id bytes) w) refl (located (at id))

    abbrev created_answer : Str → Response
    created_answer d = record {
      status = 201;
      headers = (codes "Docker-Content-Digest", d) ∷ [];
      body = [];
    }

    abbrev put_request : Str → Str → Sent
    put_request id d = record {
      method = codes "PUT";
      url = record { path = upload_path s ss plain id; query = set_value [] (codes "digest") d };
      content_type = [];
      body = [];
    }

    -- commitBlob: what the upload holds is stored under its digest
    pub commit_blob-net :
        (id d : Str) (w : Site)
        → IsPlain id
        → is_empty d ≡ false
        → content_digest sum (or_empty (w.registry.blobs.uploads id) ++ []) ≡ d
        → commit_blob net decode resolve (at id) d w
          ≡ (ok tt, next_site (committed w.registry id d) w)
    unfolding commit_blob repo_path to_request get set_value annotation_at str_eq
    commit_blob-net id d w i f h =
        step-ok (net (put_request id d)) (λ x. check net decode resolve x (201 ∷ [])) w
          (next_site (committed w.registry id d) w) (as_received (created_answer d))
          (send-respond (put_request id d) w (created_answer d) (committed w.registry id d) (
            v2-finish sum parse_index w.registry (to_request (put_request id d) (randoms w.drawn)) s
              ss plain id d i refl refl refl f h))
        ∙ check-ok (as_received (created_answer d)) (201 ∷ [])
            (next_site (committed w.registry id d) w) refl

    headed : Outcome → Registry → Site → Result WriteError Bool × Site
    headed o r w =
        continue (received sum parse_index randoms encode_error o, next_site r w)
          (λ resp. check net decode resolve resp (200 ∷ 404 ∷ []) >> done (resp.status == 200))

    -- checkExistingBlob of a blob that the registry has not
    pub exists-missing :
        (d : Str) (w : Site)
        → IsPlain d
        → w.registry.blobs.contents d ≡ none
        → exists_at net decode resolve (repo_path (repo s ss plain) (codes "blobs/" ++ d)) w
          ≡ (ok false, next_site w.registry w)
    unfolding exists_at send headed head_request to_request check checked check_error received
    exists-missing d w i n =
        ap (λ o. headed o.0 o.1 w)
          (v2-head sum parse_index w.registry
            (to_request (head_request (repo_path (repo s ss plain) (codes "blobs/" ++ d)))
              (randoms w.drawn))
            s ss plain d i refl refl)
        ∙ ap (λ o. headed o w.registry w) (get_blob-missing w.registry.blobs d n)

    pub exists-stored :
        (d : Str) (bytes : List ℕ) (w : Site)
        → IsPlain d
        → w.registry.blobs.contents d ≡ some bytes
        → exists_at net decode resolve (repo_path (repo s ss plain) (codes "blobs/" ++ d)) w
          ≡ (ok true, next_site w.registry w)
    unfolding exists_at send headed head_request to_request check checked check_error received
    exists-stored d bytes w i n =
        ap (λ o. headed o.0 o.1 w)
          (v2-head sum parse_index w.registry
            (to_request (head_request (repo_path (repo s ss plain) (codes "blobs/" ++ d)))
              (randoms w.drawn))
            s ss plain d i refl refl)
        ∙ ap (λ o. headed o w.registry w) (get_blob-stored w.registry.blobs d bytes n)
