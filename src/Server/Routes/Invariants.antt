-- ===== src/Server/Routes/Invariants.antt =====
-- What holds of the registry after every sequence of requests, and what a request that fails
-- leaves alone.
use go_containerregistry.Prelude.{
  ℕ, ◌≡◌, refl, Bool, true, false, List, [], ◌∷◌, Option, none, some, Bool-cases, inl, inr,
}
use go_containerregistry.Hash.{Hash}
use go_containerregistry.Server.Http.{Request, RegError, fail}
use go_containerregistry.Server.Blobs.{is_blob}
use go_containerregistry.Server.Blobs.Content.{
  IsContentAddressed, no_blobs-IsContentAddressed, handle_blobs-IsContentAddressed,
  handle_blobs-error,
}
use go_containerregistry.Server.Manifests.{is_manifest}
use go_containerregistry.Server.Manifests.Closed.{
  IsClosed, no_manifests-IsClosed, handle_manifests-IsClosed, SameManifests, handle_manifests-error,
}
use go_containerregistry.Server.Routes.{Registry, new, v2_at, v2, serve}

module _ (sum : List ℕ → List ℕ) (parse_index : List ℕ → Option (List Hash)) where
  -- Blobs are stored under their digests, and the manifests of an index are in its repository.
  pub record IsSound (r : Registry) : Type 0 where
    pub contents : IsContentAddressed sum r.blobs
    pub closed : IsClosed parse_index r.manifests

  new-IsSound : IsSound new
  new-IsSound = record {
    contents = no_blobs-IsContentAddressed sum;
    closed = no_manifests-IsClosed parse_index;
  }

  v2_at-IsSound :
      (r : Registry) (req : Request) (o : Option Bool)
      → IsSound r
      → IsSound (v2_at sum parse_index r req o).1
  unfolding v2_at
  v2_at-IsSound r req none h = h
  v2_at-IsSound r req (some true) h = record {
    contents = handle_blobs-IsContentAddressed sum r.blobs req h.contents;
    closed = h.closed;
  }
  v2_at-IsSound r req (some false) h = elim (Bool-cases (is_manifest req.path)) [
    | inl e ↦ rw e (record {
      contents = h.contents;
      closed = handle_manifests-IsClosed parse_index sum r.manifests req h.closed;
    })
    | inr e ↦ rw e h
  ]

  serve-from :
      (r : Registry) (reqs : List Request) → IsSound r → IsSound (serve sum parse_index r reqs)
  unfolding serve v2
  serve-from r [] h = h
  serve-from r (req ∷ reqs) h =
      serve-from (v2 sum parse_index r req).1 reqs (v2_at-IsSound r req (is_blob req.path) h)

  -- After any requests to a new registry, whatever they are and however they end, every blob is
  -- stored under the digest of its content, and every stored index has all its manifests in its
  -- repository.
  pub serve-IsSound : (reqs : List Request) → IsSound (serve sum parse_index new reqs)
  serve-IsSound reqs = serve-from new reqs new-IsSound

  -- What a client can fetch is the same.
  pub record SameView (r s : Registry) : Type 0 where
    pub blobs : s.blobs ≡ r.blobs
    pub manifests : SameManifests r.manifests s.manifests

  SameView-refl : (r : Registry) → SameView r r
  SameView-refl r = record { blobs = refl; manifests = λ repo k. refl }

  v2_at-error :
      (r : Registry) (req : Request) (o : Option Bool) (e : RegError)
      → (v2_at sum parse_index r req o).0 ≡ fail e
      → SameView r (v2_at sum parse_index r req o).1
  unfolding v2_at
  v2_at-error r req none e h = cc
  v2_at-error r req (some true) e h = record {
    blobs = handle_blobs-error sum r.blobs req e h;
    manifests = λ repo k. refl;
  }
  v2_at-error r req (some false) e h = elim (Bool-cases (is_manifest req.path)) [
    | inl m ↦ rw m (record {
      blobs = refl;
      manifests = handle_manifests-error parse_index sum r.manifests req e (rw m at h);
    })
    | inr m ↦ rw m (SameView-refl r)
  ]

  -- A request that is answered with an error changes no blob and no upload, and no manifest under
  -- any tag or digest of any repository.
  pub v2-error :
      (r : Registry) (req : Request) (e : RegError)
      → (v2 sum parse_index r req).0 ≡ fail e
      → SameView r (v2 sum parse_index r req).1
  unfolding v2
  v2-error r req e h = v2_at-error r req (is_blob req.path) e h
