-- ===== src/Remote/Served.antt =====
-- What the registry of pkg/registry answers to the requests of the writer.
use go_containerregistry.Prelude.{
  ℕ, ◌≤◌, ◌≡◌, refl, ap, ◌∙◌, true, false, List, [], ◌∷◌, ◌++◌, All, Option, none, some, Str, codes,
  is_empty, str_eq, str_eq_refl, length, length-append, leb, arith, put, delete,
}
use go_containerregistry.Hash.{Hash}
use go_containerregistry.Server.Http.{Request, Outcome, decimal}
use go_containerregistry.Server.Paths.Plain.{IsPlain, decimal-IsPlain}
use go_containerregistry.Server.Blobs.{
  Blobs, path_elems, trim_slash, from_end, middle, is_blob, location, handle_blobs, branch,
  take_branch, start, stream, finish, head_blob, post_start, patch_stream, accept_chunk, put_upload,
  get_blob, created, reply, or_empty, content_digest, range_header,
}
use go_containerregistry.Server.Blobs.Upload.{trim_slash-nil, handle_blobs-branch, branch-finish}
use go_containerregistry.Server.Routes.{Registry, v2, v2_at, to_blobs}
use go_containerregistry.Remote.Routed.{
  uploads_path, upload_path, blob_path, uploads_path-elems, upload_path-elems, blob_path-elems,
  location_of_uploads, location_of_upload, end1_of_two, end1_of_three, end2_of_three,
  last_or-append,
}

is_blob-uploads :
    (path : Str)
    → 4 ≤ length (trim_slash (path_elems path))
    → from_end 2 (trim_slash (path_elems path)) ≡ codes "blobs"
    → from_end 1 (trim_slash (path_elems path)) ≡ codes "uploads"
    → is_blob path ≡ some true
unfolding is_blob str_eq
is_blob-uploads path n h k =
    let l : leb 3 (length (trim_slash (path_elems path))) ≡ true = ground arith in
    rw (trim_slash-nil (path_elems path) n, l, h, k) refl

is_blob-blobs :
    (path : Str)
    → 4 ≤ length (trim_slash (path_elems path))
    → from_end 1 (trim_slash (path_elems path)) ≡ codes "blobs"
    → is_blob path ≡ some true
unfolding is_blob str_eq
is_blob-blobs path n h =
    let l : leb 3 (length (trim_slash (path_elems path))) ≡ true = ground arith in
    rw (trim_slash-nil (path_elems path) n, l, h) refl

branch-start :
    (req : Request) (elems : List Str)
    → req.method ≡ codes "POST"
    → 4 ≤ length elems
    → from_end 0 elems ≡ codes "uploads"
    → is_empty req.digest ≡ true
    → branch req elems ≡ start
unfolding branch str_eq
branch-start req elems m n s r = simp (m, s, r) (ground arith)

branch-stream :
    (req : Request) (elems : List Str)
    → req.method ≡ codes "PATCH"
    → 4 ≤ length elems
    → from_end 1 elems ≡ codes "uploads"
    → is_empty req.content_range ≡ true
    → branch req elems ≡ stream
unfolding branch str_eq
branch-stream req elems m n s r = simp (m, s, r) (ground arith)

branch-head_blob :
    (req : Request) (elems : List Str)
    → req.method ≡ codes "HEAD"
    → 4 ≤ length elems
    → branch req elems ≡ head_blob
unfolding branch str_eq
branch-head_blob req elems m n = simp m (ground arith)

module _ (sum : List ℕ → List ℕ) (parse_index : List ℕ → Option (List Hash)) (r : Registry)
    (req : Request) where
  v2-blobs :
      (out : Outcome × Blobs)
      → is_blob req.path ≡ some true
      → handle_blobs sum r.blobs req ≡ out
      → v2 sum parse_index r req ≡ (out.0, record r { blobs = out.1 })
  unfolding v2 v2_at to_blobs
  v2-blobs out b h =
      ap (λ o. v2_at sum parse_index r req o) b ∙ ap (λ o. (o.0, record r { blobs = o.1 })) h

  module _ (s : Str) (ss : List Str) (plain : All IsPlain (s ∷ ss)) where
    abbrev elems : List Str
    elems = trim_slash (path_elems req.path)

    elems_eq :
        (path : Str) (es : List Str)
        → req.path ≡ path
        → trim_slash (path_elems path) ≡ es
        → elems ≡ es
    elems_eq path es p e = ap (λ q. trim_slash (path_elems q)) p ∙ e

    long : (ys : List Str) → elems ≡ (codes "v2" ∷ s ∷ ss) ++ ys → 2 ≤ length ys → 4 ≤ length elems
    long ys e n = rw e (rw (length-append ss ys) (omega arith))

    started_at : Str → Outcome × Blobs
    started_at l =
        (reply 202 ((codes "Location", l) ∷ (codes "Range", codes "0-0") ∷ []) [], r.blobs)

    post_start-at :
        (es : List Str) (l : Str)
        → elems ≡ es
        → location (middle 2 es) (decimal req.fresh) ≡ l
        → post_start r.blobs req elems ≡ started_at l
    unfolding post_start started_at
    post_start-at es l e h = ap (λ x. post_start r.blobs req x) e ∙ ap started_at h

    -- POST: the Location of a new upload
    pub v2-start :
        req.method ≡ codes "POST"
        → req.path ≡ uploads_path s ss plain
        → req.digest ≡ []
        → v2 sum parse_index r req ≡ (
          reply 202
              ((codes "Location", upload_path s ss plain (decimal req.fresh))
                ∷ (codes "Range", codes "0-0")
                ∷ [])
              [],
          r,
        )
    unfolding take_branch started_at
    v2-start m p d =
        let e = elems_eq (uploads_path s ss plain) _ p (uploads_path-elems s ss plain) in
        let n = long (codes "blobs" ∷ codes "uploads" ∷ []) e (omega arith) in
        let f1 =
          ap (from_end 1) e ∙ end1_of_two (codes "v2" ∷ s ∷ ss) (codes "blobs") (codes "uploads") in
        let f0 =
          ap (from_end 0) e
          ∙ last_or-append [] (codes "blobs") (codes "v2" ∷ s ∷ ss) (codes "uploads" ∷ []) in
        v2-blobs (started_at (upload_path s ss plain (decimal req.fresh)))
          (is_blob-blobs req.path n f1)
          (handle_blobs-branch sum r.blobs req start n (branch-start req elems m n f0 (rw d))
            ∙ post_start-at _ _ e
                (location_of_uploads s ss plain (decimal req.fresh) (decimal-IsPlain req.fresh)))

    streamed_to : Str → Str → Outcome × Blobs
    streamed_to id l = (
      reply 204 ((codes "Location", l) ∷ (codes "Range", range_header (length req.body)) ∷ []) [],
      record r.blobs { uploads = put r.blobs.uploads id req.body },
    )

    patch_stream-at :
        (es : List Str) (id l : Str)
        → elems ≡ es
        → r.blobs.uploads id ≡ none
        → location (middle 3 es) id ≡ l
        → patch_stream r.blobs req elems id ≡ streamed_to id l
    unfolding patch_stream accept_chunk streamed_to
    patch_stream-at es id l e u h = ground arith

    -- PATCH of an upload that holds nothing: its Location, after the body is kept
    pub v2-stream :
        (id : Str)
        → IsPlain id
        → req.method ≡ codes "PATCH"
        → req.path ≡ upload_path s ss plain id
        → req.content_range ≡ []
        → r.blobs.uploads id ≡ none
        → v2 sum parse_index r req ≡ (
          reply 204
              ((codes "Location", upload_path s ss plain id)
                ∷ (codes "Range", range_header (length req.body))
                ∷ [])
              [],
          record r { blobs = record r.blobs { uploads = put r.blobs.uploads id req.body } },
        )
    unfolding take_branch streamed_to
    v2-stream id i m p c u =
        let e = elems_eq (upload_path s ss plain id) _ p (upload_path-elems s ss plain id i) in
        let n = long (codes "blobs" ∷ codes "uploads" ∷ id ∷ []) e (omega arith) in
        let f1 =
          ap (from_end 1) e
          ∙ end1_of_three (codes "v2" ∷ s ∷ ss) (codes "blobs") (codes "uploads") id in
        let f2 =
          ap (from_end 2) e
          ∙ end2_of_three (codes "v2" ∷ s ∷ ss) (codes "blobs") (codes "uploads") id in
        let f0 =
          ap (from_end 0) e
          ∙ last_or-append [] (codes "blobs") (codes "v2" ∷ s ∷ ss) (codes "uploads" ∷ id ∷ []) in
        v2-blobs (streamed_to id (upload_path s ss plain id)) (is_blob-uploads req.path n f2 f1) (
          handle_blobs-branch sum r.blobs req stream n (branch-stream req elems m n f1 (rw c))
          ∙ ap (λ t. patch_stream r.blobs req elems t) f0
          ∙ patch_stream-at _ id _ e u (location_of_upload s ss plain id i))

    abbrev kept : Str → Str → Blobs
    kept id d = record {
      contents = put r.blobs.contents d (or_empty (r.blobs.uploads id) ++ req.body);
      uploads = delete r.blobs.uploads id;
    }

    put_upload-kept :
        (id d : Str)
        → req.digest ≡ d
        → content_digest sum (or_empty (r.blobs.uploads id) ++ req.body) ≡ d
        → put_upload sum r.blobs req id ≡ (created d, kept id d)
    unfolding put_upload
    put_upload-kept id d e h = rw (h, e, str_eq_refl) refl

    -- PUT of an upload with the digest of what it holds: it is stored
    pub v2-finish :
        (id d : Str)
        → IsPlain id
        → req.method ≡ codes "PUT"
        → req.path ≡ upload_path s ss plain id
        → req.digest ≡ d
        → is_empty d ≡ false
        → content_digest sum (or_empty (r.blobs.uploads id) ++ req.body) ≡ d
        → v2 sum parse_index r req ≡ (created d, record r { blobs = kept id d })
    unfolding take_branch
    v2-finish id d i m p q f h =
        let e = elems_eq (upload_path s ss plain id) _ p (upload_path-elems s ss plain id i) in
        let n = long (codes "blobs" ∷ codes "uploads" ∷ id ∷ []) e (omega arith) in
        let f1 =
          ap (from_end 1) e
          ∙ end1_of_three (codes "v2" ∷ s ∷ ss) (codes "blobs") (codes "uploads") id in
        let f2 =
          ap (from_end 2) e
          ∙ end2_of_three (codes "v2" ∷ s ∷ ss) (codes "blobs") (codes "uploads") id in
        let f0 =
          ap (from_end 0) e
          ∙ last_or-append [] (codes "blobs") (codes "v2" ∷ s ∷ ss) (codes "uploads" ∷ id ∷ []) in
        v2-blobs (created d, kept id d) (is_blob-uploads req.path n f2 f1)
          (handle_blobs-branch sum r.blobs req finish n
              (branch-finish req elems m n f1 (ap is_empty q ∙ f))
            ∙ ap (λ t. put_upload sum r.blobs req t) f0
            ∙ put_upload-kept id d q h)

    -- HEAD of a blob
    pub v2-head :
        (d : Str)
        → IsPlain d
        → req.method ≡ codes "HEAD"
        → req.path ≡ blob_path s ss plain d
        → v2 sum parse_index r req ≡ (get_blob false r.blobs d, r)
    unfolding take_branch
    v2-head d i m p =
        let e = elems_eq (blob_path s ss plain d) _ p (blob_path-elems s ss plain d i) in
        let n = long (codes "blobs" ∷ d ∷ []) e (omega arith) in
        let f1 = ap (from_end 1) e ∙ end1_of_two (codes "v2" ∷ s ∷ ss) (codes "blobs") d in
        let f0 =
          ap (from_end 0) e ∙ last_or-append [] (codes "blobs") (codes "v2" ∷ s ∷ ss) (d ∷ []) in
        v2-blobs (get_blob false r.blobs d, r.blobs) (is_blob-blobs req.path n f1)
          (handle_blobs-branch sum r.blobs req head_blob n (branch-head_blob req elems m n)
            ∙ ap (λ t. (get_blob false r.blobs t, r.blobs)) f0)
