-- ===== src/Server/Blobs/Upload.antt =====
-- An upload in chunks stores the chunks put together, and a later GET returns them.
use go_containerregistry.Prelude.{
  ℕ, ◌+◌, ◌≤◌, ◌≡◌, refl, sym, subst, ap, ◌∙◌, Bool, false, List, [], ◌∷◌, ◌++◌, append_assoc,
  append-nil, length-append, none, some, Str, codes, str_eq, str_eq_refl, put, delete, is_empty,
  length, ◌==◌, arith,
}
use go_containerregistry.Server.Http.{Request}
use go_containerregistry.Server.Blobs.{
  Blobs, or_empty, content_digest, scan_range, starts_at, patch_chunk, put_upload, handle_blobs,
  path_elems, trim_slash, from_end, branch, take_branch, Branch, chunk, finish, created,
}

-- The path of a request, split as the handler splits it, and long enough for it.
abbrev pub elems_of : Request → List Str
elems_of req = trim_slash (path_elems req.path)

-- A chunk that the client sends for the upload `id`, and says to begin at byte `from`.
pub record IsChunk (id : Str) (from : ℕ) (req : Request) : Type 0 where
  pub method : req.method ≡ codes "PATCH"
  pub long : 4 ≤ length (elems_of req)
  pub service : from_end 1 (elems_of req) ≡ codes "uploads"
  pub target : from_end 0 (elems_of req) ≡ id
  pub range : scan_range req.content_range ≡ some (false, from)

-- The request that ends the upload `id`, with the digest of its content.
pub record IsFinish (id expected : Str) (req : Request) : Type 0 where
  pub method : req.method ≡ codes "PUT"
  pub long : 4 ≤ length (elems_of req)
  pub service : from_end 1 (elems_of req) ≡ codes "uploads"
  pub target : from_end 0 (elems_of req) ≡ id
  pub digest : req.digest ≡ expected

range-not-empty : (s : Str) (r : Bool × ℕ) → scan_range s ≡ some r → is_empty s ≡ false
unfolding scan_range
range-not-empty [] r h = cc
range-not-empty (c ∷ s) r h = refl

pub trim_slash-nil :
    (elems : List Str) → 4 ≤ length (trim_slash elems) → (length elems == 0) ≡ false
unfolding trim_slash
trim_slash-nil [] h = absurd (omega arith)
trim_slash-nil (e ∷ es) h = ground arith

pub handle_blobs-branch :
    (sum : List ℕ → List ℕ) (b : Blobs) (req : Request) (br : Branch)
    → 4 ≤ length (elems_of req)
    → branch req (elems_of req) ≡ br
    → handle_blobs sum b req ≡ take_branch sum b req (elems_of req) br
unfolding handle_blobs
handle_blobs-branch sum b req br n e = rw (trim_slash-nil (path_elems req.path) n, e)

branch-chunk :
    (req : Request) (elems : List Str)
    → req.method ≡ codes "PATCH"
    → 4 ≤ length elems
    → from_end 1 elems ≡ codes "uploads"
    → is_empty req.content_range ≡ false
    → branch req elems ≡ chunk
unfolding branch str_eq
branch-chunk req elems m n s r = simp (m, s, r) (ground arith)

pub branch-finish :
    (req : Request) (elems : List Str)
    → req.method ≡ codes "PUT"
    → 4 ≤ length elems
    → from_end 1 elems ≡ codes "uploads"
    → is_empty req.digest ≡ false
    → branch req elems ≡ finish
unfolding branch str_eq
branch-finish req elems m n s r = simp (m, s, r) (ground arith)

-- Chunks that follow one another from byte `from` on.
abbrev pub AreChunks : Str → ℕ → List Request → Type 0
AreChunks id from [] = Unit
AreChunks id from (req ∷ reqs) = IsChunk id from req × AreChunks id (from + length req.body) reqs

abbrev pub bodies : List Request → List ℕ
bodies [] = []
bodies (req ∷ reqs) = req.body ++ bodies reqs

module _ (sum : List ℕ → List ℕ) where
  -- the store after some requests
  unfoldable pub blobs_after : Blobs → List Request → Blobs
  blobs_after b [] = b
  blobs_after b (req ∷ reqs) = blobs_after (handle_blobs sum b req).1 reqs

  taken :
      (b : Blobs) (id : Str) (from : ℕ) (req : Request)
      → IsChunk id from req
      → length (or_empty (b.uploads id)) ≡ from
      → (take_branch sum b req (elems_of req) chunk).1
        ≡ record b { uploads = put b.uploads id (or_empty (b.uploads id) ++ req.body) }
  unfolding take_branch patch_chunk starts_at
  taken b id from req c n = simp c.target (ground arith)

  chunk_step :
      (b : Blobs) (id : Str) (from : ℕ) (req : Request)
      → IsChunk id from req
      → length (or_empty (b.uploads id)) ≡ from
      → (handle_blobs sum b req).1
        ≡ record b { uploads = put b.uploads id (or_empty (b.uploads id) ++ req.body) }
  chunk_step b id from req c n =
      rw
        (handle_blobs-branch sum b req chunk c.long (
          branch-chunk req (elems_of req) c.method c.long c.service
            (range-not-empty req.content_range (false, from) c.range)))
        (taken b id from req c n)

  grown-length :
      (b : Blobs) (id : Str) (from : ℕ) (req : Request)
      → length (or_empty (b.uploads id)) ≡ from
      → length (or_empty (put b.uploads id (or_empty (b.uploads id) ++ req.body) id))
        ≡ from + length req.body
  grown-length b id from req n = rw (str_eq_refl, length-append) (ap (λ k. k + length req.body) n)

  grown-append :
      (b : Blobs) (id : Str) (req : Request) (more : List ℕ)
      → or_empty (put b.uploads id (or_empty (b.uploads id) ++ req.body) id) ++ more
        ≡ or_empty (b.uploads id) ++ (req.body ++ more)
  grown-append b id req more = rw str_eq_refl (append_assoc (or_empty (b.uploads id)) req.body more)

  -- After chunks that follow one another from the end of what the upload holds, the upload holds
  -- their bodies behind it, and the stored blobs are those before.
  pub blobs_after-chunks :
      (b : Blobs) (id : Str) (from : ℕ) (reqs : List Request)
      → AreChunks id from reqs
      → length (or_empty (b.uploads id)) ≡ from
      → (or_empty ((blobs_after b reqs).uploads id) ≡ or_empty (b.uploads id) ++ bodies reqs)
        × ((blobs_after b reqs).contents ≡ b.contents)
  unfolding blobs_after
  blobs_after-chunks b id from [] cs n = (sym (append-nil _), refl)
  blobs_after-chunks b id from (req ∷ reqs) cs n =
      let grown = or_empty (b.uploads id) ++ req.body in
      let next : Blobs = record b { uploads = put b.uploads id grown } in
      let rest =
        blobs_after-chunks next id (from + length req.body) reqs cs.1
          (grown-length b id from req n) in
      subst
        (λ x.
          (or_empty ((blobs_after x reqs).uploads id)
            ≡ or_empty (b.uploads id) ++ bodies (req ∷ reqs))
          × ((blobs_after x reqs).contents ≡ b.contents))
        (sym (chunk_step b id from req cs.0 n))
        (rest.0 ∙ grown-append b id req (bodies reqs), rest.1)

  digest-not-empty :
      (d expected : Str) (bytes : List ℕ)
      → d ≡ expected
      → content_digest sum bytes ≡ expected
      → is_empty d ≡ false
  unfolding content_digest
  digest-not-empty d expected bytes e f = rw (e ∙ sym f)

  finished :
      (b : Blobs) (id digest : Str) (req : Request)
      → IsFinish id digest req
      → content_digest sum (or_empty (b.uploads id) ++ req.body) ≡ digest
      → take_branch sum b req (elems_of req) finish ≡ (
        created digest,
        record {
          contents = put b.contents digest (or_empty (b.uploads id) ++ req.body);
          uploads = delete b.uploads id;
        },
      )
  unfolding take_branch put_upload
  finished b id digest req f e = simp (f.target, f.digest, e, str_eq_refl)

  finish_step :
      (b : Blobs) (id digest : Str) (req : Request)
      → IsFinish id digest req
      → content_digest sum (or_empty (b.uploads id) ++ req.body) ≡ digest
      → handle_blobs sum b req ≡ (
        created digest,
        record {
          contents = put b.contents digest (or_empty (b.uploads id) ++ req.body);
          uploads = delete b.uploads id;
        },
      )
  finish_step b id digest req f e =
      handle_blobs-branch sum b req finish f.long (
        branch-finish req (elems_of req) f.method f.long f.service
          (digest-not-empty req.digest digest _ f.digest e))
      ∙ finished b id digest req f e

  blobs_after-last :
      (b : Blobs) (reqs : List Request) (last : Request)
      → blobs_after b (reqs ++ last ∷ []) ≡ (handle_blobs sum (blobs_after b reqs) last).1
  unfolding blobs_after
  blobs_after-last b [] last = refl
  blobs_after-last b (req ∷ reqs) last = blobs_after-last (handle_blobs sum b req).1 reqs last

  -- From an upload that holds nothing, chunks that follow one another from byte 0 and then a PUT
  -- with the digest of all that was sent are answered 201, store all that was sent under that
  -- digest, and end the upload.
  pub upload_in_chunks :
      (b : Blobs) (id digest : Str) (reqs : List Request) (last : Request)
      → or_empty (b.uploads id) ≡ []
      → AreChunks id 0 reqs
      → IsFinish id digest last
      → content_digest sum (bodies reqs ++ last.body) ≡ digest
      → ((handle_blobs sum (blobs_after b reqs) last).0 ≡ created digest)
        × ((blobs_after b (reqs ++ last ∷ [])).contents digest ≡ some (bodies reqs ++ last.body))
        × ((blobs_after b (reqs ++ last ∷ [])).uploads id ≡ none)
  upload_in_chunks b id digest reqs last e cs f d =
      let held = blobs_after-chunks b id 0 reqs cs (ap length e) in
      let before = blobs_after b reqs in
      let all_sent = ap (λ t. t ++ last.body) (held.0 ∙ ap (λ t. t ++ bodies reqs) e) in
      let step = finish_step before id digest last f (ap (content_digest sum) all_sent ∙ d) in
      let after = blobs_after-last b reqs last ∙ ap (λ p. p.1) step in
      (
        ap (λ p. p.0) step,
        ap (λ x. x.contents digest) after ∙ rw str_eq_refl (ap some all_sent),
        ap (λ x. x.uploads id) after ∙ rw str_eq_refl,
      )
