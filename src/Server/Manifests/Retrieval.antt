-- ===== src/Server/Manifests/Retrieval.antt =====
-- A manifest that was put is returned for its tag and for its digest.
use go_containerregistry.Prelude.{
  ℕ, ◌≡◌, true, List, [], ◌∷◌, codes, length, Option, none, some, Str, str_eq, str_eq_refl, StrMap,
  put, Bool-cases, Option-cases, inl, inr, arith,
}
use go_containerregistry.Hash.{Hash}
use go_containerregistry.Server.Http.{Request, Response, Outcome, respond, decimal}
use go_containerregistry.Server.Blobs.{created, content_digest, reply}
use go_containerregistry.Server.Manifests.{
  Manifest, Manifests, or_new, get_headers, get_manifest, check_index, put_manifest,
}

-- What the body of a PUT is stored as.
abbrev pub stored : Request → Manifest
stored req = record { content_type = req.content_type; blob = req.body }

module _ (sum : List ℕ → List ℕ) (parse_index : List ℕ → Option (List Hash)) where
  pub put_manifest-created :
      (ms : Manifests) (req : Request) (repo target : Str)
      → check_index parse_index (or_new (ms repo)) (stored req) ≡ none
      → put_manifest sum parse_index ms req repo target ≡ (
        created (content_digest sum req.body),
        put ms repo (
            put
              (put (or_new (ms repo)) target (stored req))
              (content_digest sum req.body)
              (stored req)),
      )
  unfolding put_manifest
  put_manifest-created ms req repo target h = ground arith

  pub put_manifest-refused :
      (ms : Manifests) (req : Request) (repo target : Str) (e : Outcome)
      → check_index parse_index (or_new (ms repo)) (stored req) ≡ some e
      → put_manifest sum parse_index ms req repo target ≡ (e, put ms repo (or_new (ms repo)))
  unfolding put_manifest
  put_manifest-refused ms req repo target e h = ground arith

  check_index-fails :
      (c : StrMap Manifest) (m : Manifest) (e : Outcome) (r : Response)
      → check_index parse_index c m ≡ some e
      → e ≡ respond r
      → ⊥
  unfolding check_index
  check_index-fails c m e r h q = ground arith

  -- the answer that GET gives for a stored manifest
  abbrev pub answer : Manifest → Outcome
  answer m =
      reply 200
        ((codes "Docker-Content-Digest", content_digest sum m.blob)
          ∷ (codes "Content-Type", m.content_type)
          ∷ (codes "Content-Length", decimal (length m.blob))
          ∷ [])
        m.blob

  get_manifest-found :
      (ms : Manifests) (repo target : Str) (c : StrMap Manifest) (m : Manifest)
      → ms repo ≡ some c
      → c target ≡ some m
      → get_manifest sum true ms repo target ≡ answer m
  unfolding get_manifest get_headers
  get_manifest-found ms repo target c m h k = ground arith

  -- the map of the repository after a PUT
  abbrev both : Manifests → Request → Str → Str → StrMap Manifest
  both ms req repo target =
      put (put (or_new (ms repo)) target (stored req)) (content_digest sum req.body) (stored req)

  both_at_target :
      (ms : Manifests) (req : Request) (repo target : Str)
      → both ms req repo target target ≡ some (stored req)
  both_at_target ms req repo target =
      elim (Bool-cases (str_eq (content_digest sum req.body) target)) [
        | inl e ↦ rw e
        | inr e ↦ rw (e, str_eq_refl)
      ]

  -- After a PUT that is answered with success, whatever the target is, GET answers 200 with the
  -- body, and with its digest, its content type and its length as the headers, for the target and
  -- for the digest of the body.
  pub get-put_manifest :
      (ms : Manifests) (req : Request) (repo target : Str) (r : Response)
      → (put_manifest sum parse_index ms req repo target).0 ≡ respond r
      → (get_manifest sum true (put_manifest sum parse_index ms req repo target).1 repo target
          ≡ answer (stored req))
        × (get_manifest sum true
              (put_manifest sum parse_index ms req repo target).1
              repo
              (content_digest sum req.body)
            ≡ answer (stored req))
  get-put_manifest ms req repo target r h =
      elim (Option-cases (check_index parse_index (or_new (ms repo)) (stored req))) [
        | inl passed ↦ rw (put_manifest-created ms req repo target passed) (
          get_manifest-found _ repo target (both ms req repo target) (stored req) (rw str_eq_refl)
              (both_at_target ms req repo target),
          get_manifest-found _ repo (content_digest sum req.body) (both ms req repo target)
              (stored req) (rw str_eq_refl) (rw str_eq_refl),
        )
        | inr (e, failed) ↦ absurd (
            check_index-fails _ (stored req) e r failed
              (rw (put_manifest-refused ms req repo target e failed) at h))
      ]
