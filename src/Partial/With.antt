-- ===== src/Partial/With.antt =====
-- pkg/v1/partial/with.go. The methods that a function calls are its arguments.
use go_containerregistry.Prelude.{
  ℕ, List, [], ◌∷◌, map, Option, none, some, codes, length, not, ◌==◌, if◌then◌else◌, Result, ok,
  err, ◌>>=◌,
}
use go_containerregistry.Hash.{Hash, sha256}
use go_containerregistry.Platform.Descriptors.{Descriptor, MediaType, hash_eq}
use go_containerregistry.Partial.Objects.{
  Fault, mismatched, blob_not_found, unknown_blob, unknown_diff_id, ConfigFile, Manifest, Layer,
}

-- DiffIDs
unfoldable pub diff_ids : Result Fault ConfigFile → Result Fault (List Hash)
diff_ids config_file = do cfg ← config_file; ok cfg.diff_ids

-- FSLayers
unfoldable pub fs_layers : Result Fault Manifest → Result Fault (List Hash)
fs_layers manifest = do m ← manifest; ok (map (λ l. l.digest) m.layers)

-- The first layer with the digest.
unfoldable pub layer_descriptor : List Descriptor → Hash → Option Descriptor
layer_descriptor [] h = none
layer_descriptor (l ∷ ls) h =
    let rest = layer_descriptor ls h in if hash_eq l.digest h then some l else rest

unfoldable pub found_or : {A : Type 0} → Fault → Option A → Result Fault A
found_or e none = err e
found_or e (some a) = ok a

unfoldable pub blob_descriptor : Result Fault Manifest → Hash → Result Fault Descriptor
blob_descriptor manifest h = do
  m ← manifest
  if hash_eq m.config.digest h
      then ok m.config
      else found_or (blob_not_found h) (layer_descriptor m.layers h)

unfoldable pub blob_size : Result Fault Manifest → Hash → Result Fault ℕ
blob_size manifest h = do d ← blob_descriptor manifest h; ok d.size

-- The element of the second list at the index of the first `h` in the first list.
unfoldable pub at_index_of : List Hash → List Hash → Hash → Option Hash
at_index_of [] ys h = none
at_index_of (x ∷ xs) [] h = none
at_index_of (x ∷ xs) (y ∷ ys) h =
    let rest = at_index_of xs ys h in if hash_eq x h then some y else rest

unfoldable pub blob_to_diff_id :
    Result Fault Manifest → Result Fault ConfigFile → Hash → Result Fault Hash
blob_to_diff_id manifest config_file h = do
  blobs ← fs_layers manifest
  ids ← diff_ids config_file
  if not (length blobs == length ids)
      then err (mismatched (length blobs) (length ids))
      else found_or (unknown_blob h) (at_index_of blobs ids h)

unfoldable pub diff_id_to_blob :
    Result Fault Manifest → Result Fault ConfigFile → Hash → Result Fault Hash
diff_id_to_blob manifest config_file h = do
  blobs ← fs_layers manifest
  ids ← diff_ids config_file
  if not (length blobs == length ids)
      then err (mismatched (length blobs) (length ids))
      else found_or (unknown_diff_id h) (at_index_of ids blobs h)

-- ConfigName and Digest: the hash of the raw bytes
unfoldable pub digest_of_raw : (List ℕ → List ℕ) → Result Fault (List ℕ) → Result Fault Hash
digest_of_raw sum raw = do (h, n) ← sha256 sum raw; ok h

-- Size
unfoldable pub size_of_raw : Result Fault (List ℕ) → Result Fault ℕ
size_of_raw raw = do b ← raw; ok (length b)

abbrev pub oci_config_json : MediaType
oci_config_json = codes "application/vnd.oci.image.config.v1+json"

-- ConfigLayer, for a raw config file that is returned the same at each call
unfoldable pub config_layer : (List ℕ → List ℕ) → Result Fault (List ℕ) → Result Fault Layer
config_layer sum raw = do
  h ← digest_of_raw sum raw
  content ← raw
  ok (record {
    digest = ok h;
    diff_id = ok h;
    compressed = ok content;
    uncompressed = ok content;
    size = ok (length content);
    media_type = ok oci_config_json;
    own_descriptor = none;
  })

computed_descriptor : Layer → Result Fault Descriptor
computed_descriptor l = do
  size ← l.size
  digest ← l.digest
  media_type ← l.media_type
  ok (record {
    media_type = media_type;
    size = size;
    digest = digest;
    urls = [];
    annotations = [];
    platform = none;
  })

-- Descriptor of a layer
unfoldable pub descriptor : Layer → Result Fault Descriptor
unfolding computed_descriptor
descriptor l = elim (l.own_descriptor) [ some d ↦ d | none ↦ computed_descriptor l ]
