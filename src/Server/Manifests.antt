-- ===== src/Server/Manifests.antt =====
-- pkg/registry/manifest.go: the store of manifests, and its handler. `sum` is sha256.Sum256, and
-- `parse_index` is ParseIndexManifest, reduced to the digests of the manifests in the list; it
-- decodes JSON and is a parameter.
pub mod Retrieval
pub mod Closed
use go_containerregistry.Prelude.{
  ℕ, Bool, true, false, ◌&&◌, ◌||◌, not, List, [], ◌∷◌, ◌++◌, Option, none, some, Str, codes,
  is_empty, str_eq, join, length, leb, ltb, ◌==◌, if◌then◌else◌, StrMap, empty_map, put,
}
use go_containerregistry.Hash.{Hash, hash_string}
use go_containerregistry.Server.Http.{
  Request, Response, RegError, Outcome, respond, fail, panic, fixed, parser_error,
  sub_manifest_not_found, decimal,
}
use go_containerregistry.Server.Blobs.{
  path_elems, from_end, middle, error, reply, created, content_digest,
}

abbrev pub oci_image_index : Str
oci_image_index = codes "application/vnd.oci.image.index.v1+json"

abbrev pub docker_manifest_list : Str
docker_manifest_list = codes "application/vnd.docker.distribution.manifest.list.v2+json"

pub record Manifest : Type 0 where
  pub content_type : Str
  pub blob : List ℕ

-- maps a repository to a map of tags and digests
abbrev pub Manifests : Type 0
Manifests = StrMap (StrMap Manifest)

abbrev pub no_manifests : Manifests
no_manifests = empty_map

unfoldable pub is_manifest : Str → Bool
is_manifest path =
    let elems = path_elems path in
    leb 4 (length elems) && str_eq (from_end 1 elems) (codes "manifests")

unfoldable pub get_headers : (List ℕ → List ℕ) → Manifest → List (Str × Str)
get_headers sum m =
    (codes "Docker-Content-Digest", content_digest sum m.blob)
    ∷ (codes "Content-Type", m.content_type)
    ∷ (codes "Content-Length", decimal (length m.blob))
    ∷ []

found_manifest : (List ℕ → List ℕ) → Bool → Option Manifest → Outcome
unfolding get_headers
found_manifest sum with_body none = error 404 (codes "MANIFEST_UNKNOWN") (codes "Unknown manifest")
found_manifest sum with_body (some m) =
    reply 200 (get_headers sum m) (if with_body then m.blob else [])

-- GET, and HEAD, which sends no body
unfoldable pub get_manifest : (List ℕ → List ℕ) → Bool → Manifests → Str → Str → Outcome
unfolding found_manifest
get_manifest sum with_body ms repo target = elim (ms repo) [
  | none ↦ error 404 (codes "NAME_UNKNOWN") (codes "Unknown name")
  | some c ↦ found_manifest sum with_body (c target)
]

-- `if _, ok := m.manifests[repo]; !ok { m.manifests[repo] = map[string]manifest{} }`
abbrev pub or_new : Option (StrMap Manifest) → StrMap Manifest
or_new none = empty_map
or_new (some c) = c

is_missing : Option Manifest → Bool
is_missing none = true
is_missing (some m) = false

-- the first manifest of the list that is not there
unfoldable pub first_missing : StrMap Manifest → List Hash → Option Hash
unfolding is_missing
first_missing c [] = none
first_missing c (d ∷ ds) =
    let rest = first_missing c ds in if is_missing (c (hash_string d)) then some d else rest

abbrev pub is_index_type : Str → Bool
is_index_type t = str_eq t oci_image_index || str_eq t docker_manifest_list

missing_error : Option Hash → Option Outcome
missing_error none = none
missing_error (some d) = some (
    fail (record {
      status = 404;
      code = codes "MANIFEST_UNKNOWN";
      message = sub_manifest_not_found d;
    }))

index_error : StrMap Manifest → Option (List Hash) → Option Outcome
unfolding missing_error
index_error c none =
    some (fail (record { status = 404; code = codes "MANIFEST_UNKNOWN"; message = parser_error }))
index_error c (some ds) = missing_error (first_missing c ds)

-- the error of an index whose manifests are not all uploaded, if there is one
unfoldable pub check_index :
    (List ℕ → Option (List Hash)) → StrMap Manifest → Manifest → Option Outcome
unfolding index_error
check_index parse_index c m =
    if is_index_type m.content_type then index_error c (parse_index m.blob) else none

-- PUT: the repository is there afterwards also where the check of an index fails
unfoldable pub put_manifest :
    (List ℕ → List ℕ)
    → (List ℕ → Option (List Hash))
    → Manifests
    → Request
    → Str
    → Str
    → Outcome × Manifests
put_manifest sum parse_index ms req repo target =
    let c = or_new (ms repo) in
    let digest = content_digest sum req.body in
    let mf : Manifest = record { content_type = req.content_type; blob = req.body } in
    elim (check_index parse_index c mf) [
      | some e ↦ (e, put ms repo c)
      | none ↦ (created digest, put ms repo (put (put c target mf) digest mf))
    ]

-- manifests.handle; the slice `elem[1:len(elem)-2]` panics at fewer than three elements
unfoldable pub handle_manifests :
    (List ℕ → List ℕ) → (List ℕ → Option (List Hash)) → Manifests → Request → Outcome × Manifests
handle_manifests sum parse_index ms req =
    let elems = path_elems req.path in
    let target = from_end 0 elems in
    let repo = join (middle 2 elems) b'/' in
    if ltb (length elems) 3
    then (panic, ms)
    else if str_eq req.method (codes "GET")
    then (get_manifest sum true ms repo target, ms)
    else if str_eq req.method (codes "HEAD")
    then (get_manifest sum false ms repo target, ms)
    else if str_eq req.method (codes "PUT")
    then put_manifest sum parse_index ms req repo target
    else (error 400 (codes "METHOD_UNKNOWN") (codes "We don't understand your method + url"), ms)
