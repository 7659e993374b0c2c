-- ===== src/Partial/Objects.antt =====
-- What images, layers and indexes of pkg/v1 return: pkg/v1/config.go, pkg/v1/manifest.go,
-- pkg/v1/layer.go, pkg/v1/image.go and pkg/v1/index.go. A method is the result of its call.
use go_containerregistry.Prelude.{ℕ, Bool, List, Option, Str, Result}
use go_containerregistry.Hash.{Hash}
use go_containerregistry.Platform.Descriptors.{Descriptor, MediaType}

-- The errors of a method, of the helpers in pkg/v1/partial and of the mutations.
pub data Fault : Type 0 where
  method_failed : Str → Fault
  not_computed : Fault
  mismatched : ℕ → ℕ → Fault
  blob_not_found : Hash → Fault
  unknown_blob : Hash → Fault
  unknown_diff_id : Hash → Fault

-- `text` is the author, command and comment of an entry; a time is its text.
pub record History : Type 0 where
  pub created : Str
  pub text : Str
  pub empty_layer : Bool

-- The runtime configuration: its host name, and the text of the rest.
pub record Config : Type 0 where
  pub hostname : Str
  pub rest : Str

pub record ConfigFile : Type 0 where
  pub architecture : Str
  pub author : Str
  pub container : Str
  pub created : Str
  pub docker_version : Str
  pub history : List History
  pub os : Str
  pub diff_ids : List Hash
  pub config : Config
  pub os_version : Str

pub record Manifest : Type 0 where
  pub schema_version : ℕ
  pub media_type : MediaType
  pub config : Descriptor
  pub layers : List Descriptor
  pub annotations : List (Str × Str)

pub record IndexManifest : Type 0 where
  pub schema_version : ℕ
  pub media_type : MediaType
  pub manifests : List Descriptor
  pub annotations : List (Str × Str)

-- `own_descriptor` is the method Descriptor of the layer, or of what it extends, if there is one.
pub record Layer : Type 0 where
  pub digest : Result Fault Hash
  pub diff_id : Result Fault Hash
  pub compressed : Result Fault (List ℕ)
  pub uncompressed : Result Fault (List ℕ)
  pub size : Result Fault ℕ
  pub media_type : Result Fault MediaType
  pub own_descriptor : Option (Result Fault Descriptor)

pub record Image : Type 0 where
  pub layers : Result Fault (List Layer)
  pub media_type : Result Fault MediaType
  pub config_file : Result Fault ConfigFile
  pub manifest : Result Fault Manifest
  pub layer_by_digest : Hash → Result Fault Layer
  pub layer_by_diff_id : Hash → Result Fault Layer
