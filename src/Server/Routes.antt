-- ===== src/Server/Routes.antt =====
-- pkg/registry/registry.go: a request goes to the store that its path names.
pub mod Invariants
use go_containerregistry.Prelude.{
  ℕ, Bool, true, false, ◌&&◌, ◌||◌, not, List, [], ◌∷◌, Option, none, some, Str, codes, str_eq,
  if◌then◌else◌,
}
use go_containerregistry.Hash.{Hash}
use go_containerregistry.Server.Http.{Request, Outcome, panic, respond}
use go_containerregistry.Server.Blobs.{Blobs, no_blobs, is_blob, handle_blobs, error, reply}
use go_containerregistry.Server.Manifests.{Manifests, no_manifests, is_manifest, handle_manifests}

pub record Registry : Type 0 where
  pub blobs : Blobs
  pub manifests : Manifests

-- New: the registry with no option set
abbrev pub new : Registry
new = record { blobs = no_blobs; manifests = no_manifests }

module _ (sum : List ℕ → List ℕ) (parse_index : List ℕ → Option (List Hash)) where
  -- the API version check
  version : Request → Outcome
  version req =
      if not (str_eq req.path (codes "/v2/")) && not (str_eq req.path (codes "/v2"))
      then error 404 (codes "METHOD_UNKNOWN") (codes "We don't understand your method + url")
      else reply 200 ((codes "Docker-Distribution-API-Version", codes "registry/2.0") ∷ []) []

  unfoldable pub to_blobs : Registry → Outcome × Blobs → Outcome × Registry
  to_blobs r (out, b) = (out, record r { blobs = b })

  to_manifests : Registry → Outcome × Manifests → Outcome × Registry
  to_manifests r (out, ms) = (out, record r { manifests = ms })

  unfoldable pub v2_at : Registry → Request → Option Bool → Outcome × Registry
  unfolding version to_blobs to_manifests
  v2_at r req none = (panic, r)
  v2_at r req (some true) = to_blobs r (handle_blobs sum r.blobs req)
  v2_at r req (some false) =
      if is_manifest req.path
      then to_manifests r (handle_manifests sum parse_index r.manifests req)
      else (version req, r)

  -- registry.v2
  unfoldable pub v2 : Registry → Request → Outcome × Registry
  unfolding v2_at
  v2 r req = v2_at r req (is_blob req.path)

  -- The registry after a sequence of requests; a panic ends only its own request.
  unfoldable pub serve : Registry → List Request → Registry
  serve r [] = r
  serve r (req ∷ reqs) = serve (v2 r req).1 reqs
