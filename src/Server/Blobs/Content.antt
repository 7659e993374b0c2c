-- ===== src/Server/Blobs/Content.antt =====
-- Every blob is stored under the digest of its content, and a request that fails stores nothing.
use go_containerregistry.Prelude.{
  some_injective, ℕ, ◌≡◌, refl, sym, ap, ◌∙◌, List, ◌++◌, some, Str, str_eq, str_eq_iff, StrMap,
  put, Bool-cases, inl, inr, arith,
}
use go_containerregistry.Server.Http.{Request, RegError, Outcome, fail}
use go_containerregistry.Server.Blobs.{
  Blobs, no_blobs, or_empty, content_digest, post_whole, patch_chunk, patch_stream, put_upload,
  handle_blobs,
}
use go_containerregistry.Server.Blobs.Branches.{handle_blobs_rule}

module _ (sum : List ℕ → List ℕ) where
  -- A key of the contents is the digest of what it maps to.
  pub record IsContentAddressed (b : Blobs) : Type 0 where
    pub at : (k : Str) (bytes : List ℕ) → b.contents k ≡ some bytes → k ≡ content_digest sum bytes

  pub no_blobs-IsContentAddressed : IsContentAddressed no_blobs
  no_blobs-IsContentAddressed = record { at = λ k bytes e. cc }

  put-content :
      (contents : StrMap (List ℕ)) (bytes : List ℕ)
      → ((k : Str) (c : List ℕ) → contents k ≡ some c → k ≡ content_digest sum c)
      → (k : Str) (c : List ℕ) → put contents (content_digest sum bytes) bytes k ≡ some c
      → k ≡ content_digest sum c
  put-content contents bytes h k c e = elim (Bool-cases (str_eq (content_digest sum bytes) k)) [
    | inl q ↦ sym ((str_eq_iff _ k).0 q) ∙ ap (content_digest sum) (some_injective (rw q at e))
    | inr q ↦ h k c (rw q at e)
  ]

  module _ (b : Blobs) (req : Request) (h : IsContentAddressed b) where
    whole-IsContentAddressed : IsContentAddressed (post_whole sum b req).1
    unfolding post_whole
    whole-IsContentAddressed = elim (Bool-cases (str_eq (content_digest sum req.body) req.digest)) [
      | inl e ↦ rw e (record { at = put-content b.contents req.body h.at })
      | inr e ↦ rw e h
    ]

    chunk-IsContentAddressed :
        (elems : List Str) (target : Str) → IsContentAddressed (patch_chunk b req elems target).1
    unfolding patch_chunk
    chunk-IsContentAddressed elems target = record { at = λ k c e. h.at k c (ground arith) }

    stream-IsContentAddressed :
        (elems : List Str) (target : Str) → IsContentAddressed (patch_stream b req elems target).1
    unfolding patch_stream
    stream-IsContentAddressed elems target = record { at = λ k c e. h.at k c (ground arith) }

    upload-IsContentAddressed : (target : Str) → IsContentAddressed (put_upload sum b req target).1
    unfolding put_upload
    upload-IsContentAddressed target =
        let bytes = or_empty (b.uploads target) ++ req.body in
        elim (Bool-cases (str_eq (content_digest sum bytes) req.digest)) [
          | inl e ↦ rw e (record { at = put-content b.contents bytes h.at })
          | inr e ↦ rw e h
        ]

  -- Every request to the store of blobs, accepted or not, keeps it content-addressed.
  pub handle_blobs-IsContentAddressed :
      (b : Blobs) (req : Request)
      → IsContentAddressed b
      → IsContentAddressed (handle_blobs sum b req).1
  handle_blobs-IsContentAddressed b req h =
      handle_blobs_rule (λ p. IsContentAddressed p.1) sum b req (λ out. h)
        (whole-IsContentAddressed b req h) (chunk-IsContentAddressed b req h)
        (stream-IsContentAddressed b req h) (upload-IsContentAddressed b req h)

  -- Where the result is an error, the store is the one before.
  abbrev KeepsOnError : Blobs → Outcome × Blobs → Type 0
  KeepsOnError b p = (e : RegError) → p.0 ≡ fail e → p.1 ≡ b

  module _ (b : Blobs) (req : Request) where
    whole-KeepsOnError : KeepsOnError b (post_whole sum b req)
    unfolding post_whole
    whole-KeepsOnError e h = ground arith

    chunk-KeepsOnError :
        (elems : List Str) (target : Str) → KeepsOnError b (patch_chunk b req elems target)
    unfolding patch_chunk
    chunk-KeepsOnError elems target e h = ground arith

    stream-KeepsOnError :
        (elems : List Str) (target : Str) → KeepsOnError b (patch_stream b req elems target)
    unfolding patch_stream
    stream-KeepsOnError elems target e h = ground arith

    upload-KeepsOnError : (target : Str) → KeepsOnError b (put_upload sum b req target)
    unfolding put_upload
    upload-KeepsOnError target e h = ground arith

    -- A request to the store of blobs that returns an error changes neither the blobs nor the
    -- uploads.
    pub handle_blobs-error :
        (e : RegError) → (handle_blobs sum b req).0 ≡ fail e → (handle_blobs sum b req).1 ≡ b
    handle_blobs-error =
        handle_blobs_rule (KeepsOnError b) sum b req (λ out e h. refl) whole-KeepsOnError
          chunk-KeepsOnError stream-KeepsOnError upload-KeepsOnError
