-- ===== src/Layout/Files.antt =====
-- pkg/v1/layout/write.go, blob.go and findDescriptor of index.go. The disk holds the files below the
-- path of the layout; `denied` is the error of the operating system for making a directory or a
-- file, if there is one. The goroutines that write layers run one after another, in any order that
-- the list of the layers has.
use go_containerregistry.Prelude.{
  ℕ, List, [], ◌∷◌, ◌++◌, Option, none, some, Str, codes, length, if◌then◌else◌, Result, ok, err,
  StrMap, put,
}
use go_containerregistry.Hash.{Hash}
use go_containerregistry.Platform.Descriptors.{Descriptor, MediaType, hash_eq}
use go_containerregistry.Partial.Objects.{Fault, IndexManifest, Layer}
use go_containerregistry.Server.Paths.{path_join}
use go_containerregistry.Remote.Act.{Act, lift, ◌>>=◌, ◌>>◌}

abbrev pub Disk : Type 0
Disk = StrMap (List ℕ)

pub data LayoutError : Type 0 where
  os_error : Str → LayoutError
  method_error : Fault → LayoutError
  bad_json : LayoutError
  not_single : LayoutError
  no_descriptor : Hash → LayoutError
  bad_option : Str → LayoutError

-- What a reader gives, and how it ends: `none` is the end of the file.
pub record Reader : Type 0 where
  pub bytes : List ℕ
  pub failure : Option Fault

abbrev pub whole : List ℕ → Reader
whole bytes = record { bytes = bytes; failure = none }

-- blobPath, below the path of the layout
unfoldable pub blob_path : Hash → Str
blob_path h = path_join (codes "blobs" ∷ h.algorithm ∷ h.hex ∷ [])

unfoldable pub method_result : {A : Type 0} → Result Fault A → Result LayoutError A
method_result (ok a) = ok a
method_result (err e) = err (method_error e)

unfoldable pub copy_result : Option Fault → Result LayoutError Unit
copy_result none = ok tt
copy_result (some e) = err (method_error e)

-- What WriteImage uses of an image.
pub record Image : Type 0 where
  pub layers : Result Fault (List Layer)
  pub config_name : Result Fault Hash
  pub raw_config_file : Result Fault (List ℕ)
  pub media_type : Result Fault MediaType
  pub digest : Result Fault Hash
  pub raw_manifest : Result Fault (List ℕ)

abbrev pub layout_file : List ℕ
layout_file = codes "{\n    \"imageLayoutVersion\": \"1.0.0\"\n}"

unfoldable pub first_error :
    Result LayoutError Unit → Result LayoutError Unit → Result LayoutError Unit
first_error (ok u) r = r
first_error (err e) r = err e

abbrev empty_hash : Hash
empty_hash = record { algorithm = []; hex = [] }

-- the descriptor with the digest, and the only one for the empty hash
unfoldable pub with_digest : List Descriptor → Hash → Result LayoutError Descriptor
with_digest [] h = err (no_descriptor h)
with_digest (d ∷ ds) h = let rest = with_digest ds h in if hash_eq d.digest h then ok d else rest

only_one : List Descriptor → Result LayoutError Descriptor
only_one (d ∷ []) = ok d
only_one _ = err not_single

-- findDescriptor
unfoldable pub find_descriptor : List Descriptor → Hash → Result LayoutError Descriptor
unfolding only_one
find_descriptor ds h = if hash_eq h empty_hash then only_one ds else with_digest ds h

module _ (denied : Str → Option Str) where
  create : Str → List ℕ → Option Str → Act Disk LayoutError Unit
  create name bytes (some e) d = (err (os_error e), d)
  create name bytes none d = (ok tt, put d name bytes)

  -- WriteFile
  unfoldable pub write_file : Str → List ℕ → Act Disk LayoutError Unit
  unfolding create
  write_file name bytes d = create name bytes (denied name) d

  unfoldable pub create_blob : Str → Reader → Option Str → Act Disk LayoutError Unit
  create_blob path r (some e) d = (err (os_error e), d)
  create_blob path r none d = (copy_result r.failure, put d path r.bytes)

  -- what follows the Stat of the file
  unfoldable pub unless_there : Str → Reader → Option (List ℕ) → Act Disk LayoutError Unit
  unfolding create_blob
  unless_there path r (some b) d = (ok tt, d)
  unless_there path r none d = create_blob path r (denied path) d

  unfoldable pub in_directory : Str → Reader → Option Str → Act Disk LayoutError Unit
  unfolding unless_there
  in_directory path r (some e) d = (err (os_error e), d)
  in_directory path r none d = unless_there path r (d path) d

  -- WriteBlob
  unfoldable pub write_blob : Hash → Reader → Act Disk LayoutError Unit
  unfolding in_directory
  write_blob h r d =
      in_directory (blob_path h) r (denied (path_join (codes "blobs" ∷ h.algorithm ∷ []))) d

  -- writeLayer
  unfoldable pub write_layer : Layer → Act Disk LayoutError Unit
  write_layer l = do
    h ← lift (method_result l.digest)
    r ← lift (method_result l.compressed)
    write_blob h (whole r)

  -- The layers of WriteImage: all are written, whatever the others return.
  unfoldable pub write_layers : List Layer → Act Disk LayoutError Unit
  write_layers [] d = (ok tt, d)
  write_layers (l ∷ ls) d =
      let first = write_layer l d in
      let rest = write_layers ls first.1 in (first_error first.0 rest.0, rest.1)

  -- WriteImage
  unfoldable pub write_image : Image → Act Disk LayoutError Unit
  write_image img = do
    ls ← lift (method_result img.layers)
    write_layers ls
    name ← lift (method_result img.config_name)
    config ← lift (method_result img.raw_config_file)
    write_blob name (whole config)
    h ← lift (method_result img.digest)
    manifest ← lift (method_result img.raw_manifest)
    write_blob h (whole manifest)

  module _ (parse : List ℕ → Option IndexManifest) (marshal : IndexManifest → List ℕ) where
    read_index : Option (List ℕ) → Result LayoutError IndexManifest
    read_index none = err (os_error (codes "index.json"))
    read_index (some raw) = elim (parse raw) [ none ↦ err bad_json | some m ↦ ok m ]

    -- AppendDescriptor
    unfoldable pub append_descriptor : Descriptor → Act Disk LayoutError Unit
    unfolding read_index
    append_descriptor desc d =
        (lift (read_index (d (codes "index.json"))) >>= λ index.
        write_file (codes "index.json")
          (marshal (record index { manifests = index.manifests ++ desc ∷ [] })))
          d

    -- the loop over the options
    unfoldable pub with_options :
        List (Descriptor → Result LayoutError Descriptor)
        → Descriptor
        → Result LayoutError Descriptor
    with_options [] desc = ok desc
    with_options (o ∷ os) desc = elim (o desc) [ ok e ↦ with_options os e | err e ↦ err e ]

    -- AppendImage
    unfoldable pub append_image :
        Image → List (Descriptor → Result LayoutError Descriptor) → Act Disk LayoutError Unit
    append_image img options = do
      write_image img
      mt ← lift (method_result img.media_type)
      h ← lift (method_result img.digest)
      manifest ← lift (method_result img.raw_manifest)
      desc ← lift (
          with_options options (record {
            media_type = mt;
            size = length manifest;
            digest = h;
            urls = [];
            annotations = [];
            platform = none;
          }))
      append_descriptor desc
