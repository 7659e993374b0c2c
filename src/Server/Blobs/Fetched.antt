-- ===== src/Server/Blobs/Fetched.antt =====
-- What GET returns for a blob that was uploaded in chunks.
use go_containerregistry.Prelude.{
  ℕ, ◌≡◌, true, List, [], ◌∷◌, ◌++◌, some, Str, codes, length, arith,
}
use go_containerregistry.Server.Http.{Request, Outcome, decimal}
use go_containerregistry.Server.Blobs.{Blobs, or_empty, content_digest, get_blob, reply}
use go_containerregistry.Server.Blobs.Upload.{
  AreChunks, IsFinish, bodies, blobs_after, upload_in_chunks,
}

-- the answer that GET gives for a stored blob
abbrev pub served : Str → List ℕ → Outcome
served digest bytes =
    reply 200
      ((codes "Content-Length", decimal (length bytes))
        ∷ (codes "Docker-Content-Digest", digest)
        ∷ [])
      bytes

module _ (sum : List ℕ → List ℕ) where
  get_blob-found :
      (b : Blobs) (digest : Str) (bytes : List ℕ)
      → b.contents digest ≡ some bytes
      → get_blob true b digest ≡ served digest bytes
  unfolding get_blob
  get_blob-found b digest bytes h = ground arith

  -- From an upload that holds nothing, after chunks that follow one another from byte 0 and a PUT
  -- with the digest of all that was sent, a GET of the digest is answered 200 with all that was
  -- sent, and with its length and the digest as the headers.
  pub get_blob-upload_in_chunks :
      (b : Blobs) (id digest : Str) (reqs : List Request) (last : Request)
      → or_empty (b.uploads id) ≡ []
      → AreChunks id 0 reqs
      → IsFinish id digest last
      → content_digest sum (bodies reqs ++ last.body) ≡ digest
      → get_blob true (blobs_after sum b (reqs ++ last ∷ [])) digest
        ≡ served digest (bodies reqs ++ last.body)
  get_blob-upload_in_chunks b id digest reqs last empty chunks finish same =
      get_blob-found _ digest _
        (upload_in_chunks sum b id digest reqs last empty chunks finish same).1
