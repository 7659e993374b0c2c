-- ===== src/Mutate/Rebase.antt =====
-- pkg/v1/mutate/rebase.go, with `Append` and `validate` of that package. A layer is what its
-- `Digest` method returns, and an image is what its methods return. The image that `Rebase`
-- builds is kept as its configuration and the addendums that are appended to it.
pub mod Stacks
pub mod Based
use go_containerregistry.Prelude.{
  ℕ, zero, suc, ◌+◌, ◌-◌, Bool, true, false, ◌&&◌, ◌||◌, not, List, [], ◌∷◌, ◌++◌, Option, none,
  some, Str, length, ltb, leb, if◌then◌else◌, Result, ok, err, ◌>>=◌, ◌>>◌, get_elem?,
}
use go_containerregistry.Hash.{Hash}
use go_containerregistry.Platform.Descriptors.{hash_eq}

-- `history` is the time, author, command and comment of an entry, which are only copied.
pub record History : Type 0 where
  pub text : Str
  pub empty_layer : Bool

abbrev pub zero_history : History
zero_history = record { text = []; empty_layer = false }

pub data Failure : Type 0 where
  method_failed : Str → Failure
  too_few_layers : Failure
  layer_mismatch : ℕ → Failure
  nil_layer : Failure
  out_of_range : Failure

pub record Layer : Type 0 where
  pub name : Str
  pub digest : Result Failure Hash

pub record Addendum : Type 0 where
  pub layer : Option Layer
  pub history : History

-- the parts of a ConfigFile that are read and set; `config` is the runtime configuration
pub record ConfigFile : Type 0 where
  pub history : List History
  pub architecture : Str
  pub os : Str
  pub os_version : Str
  pub config : Str

pub record Image : Type 0 where
  pub layers : Result Failure (List Layer)
  pub config_file : Result Failure ConfigFile

-- whether the entry is appended, after `layerIndex++`
is_above : ℕ → ℕ → ℕ → ℕ → Bool
is_above start_history start_layer history_index layer_index =
    leb start_history history_index || leb start_layer layer_index

entry : Bool → List Addendum → Option Layer → History → List Addendum
entry true adds layer h = adds ++ record { layer = layer; history = h } ∷ []
entry false adds layer h = adds

-- The loop over `history`: the addendums so far, and `layerIndex`; `none` is the panic of
-- `layers[layerIndex]`.
unfoldable pub history_loop :
    ℕ → ℕ → ℕ → ℕ → List History → List Layer → List Addendum → Option (List Addendum × ℕ)
unfolding is_above entry
history_loop start_history start_layer hi li [] layers adds = some (adds, li)
history_loop start_history start_layer hi li (h ∷ hs) layers adds = elim (h.empty_layer) [
  | true ↦
      history_loop start_history start_layer (hi + 1) li hs layers
        (entry (is_above start_history start_layer hi li) adds none h)
  | false ↦ elim (get_elem? layers li) [
    | none ↦ none
    | some l ↦
        history_loop start_history start_layer (hi + 1) (li + 1) hs layers
          (entry (is_above start_history start_layer hi (li + 1)) adds (some l) h)
  ]
]

-- The loop over the remaining layers, `count` of them, from index `i`: it appends the layer at
-- `layerIndex`, here `l`, for each.
unfoldable pub remaining_loop : ℕ → ℕ → ℕ → Layer → List Addendum → List Addendum
remaining_loop start_layer zero i l adds = adds
remaining_loop start_layer (suc count) i l adds = remaining_loop start_layer count (i + 1) l (
    if leb start_layer i
    then adds ++ record { layer = some l; history = zero_history } ∷ []
    else adds)

remaining : ℕ → ℕ → List Layer → List Addendum → Option Layer → List Addendum
unfolding remaining_loop
remaining start_layer li layers adds none = adds
remaining start_layer li layers adds (some l) =
    remaining_loop start_layer (length layers - li) li l adds

after_history : ℕ → List Layer → Option (List Addendum × ℕ) → Result Failure (List Addendum)
unfolding remaining
after_history start_layer layers none = err out_of_range
after_history start_layer layers (some (adds, li)) =
    ok (remaining start_layer li layers adds (get_elem? layers li))

unfoldable pub create_addendums : ℕ → ℕ → List History → List Layer → Result Failure (List Addendum)
unfolding after_history
create_addendums start_history start_layer history layers =
    after_history start_layer layers (history_loop start_history start_layer 0 0 history layers [])

is_nil : Option Layer → Bool
is_nil none = true
is_nil (some l) = false

unfoldable pub validate : List Addendum → Result Failure Unit
unfolding is_nil
validate [] = ok tt
validate (a ∷ adds) =
    let rest = validate adds in
    if is_nil a.layer && not a.history.empty_layer then err nil_layer else rest

-- An image under construction: its configuration, and what was appended to the empty image.
pub record Rebased : Type 0 where
  pub architecture : Str
  pub os : Str
  pub os_version : Str
  pub config : Str
  pub adds : List Addendum

-- Append
unfoldable pub append : Rebased → List Addendum → Result Failure Rebased
append base [] = ok base
append base (a ∷ adds) = do validate (a ∷ adds); ok (record base { adds = base.adds ++ a ∷ adds })

-- the loop that compares the digests of the old base's layers with those of the original
unfoldable pub same_layers : ℕ → List Layer → List Layer → Result Failure Unit
same_layers i [] orig = ok tt
same_layers i (l ∷ old) [] = err out_of_range
same_layers i (l ∷ old) (o ∷ orig) = do
  d ← l.digest
  e ← o.digest
  if hash_eq d e then same_layers (i + 1) old orig else err (layer_mismatch i)

unfoldable pub check_based_on : List Layer → List Layer → Result Failure Unit
check_based_on old orig =
    if ltb (length orig) (length old) then err too_few_layers else same_layers 0 old orig

unfoldable pub rebase : Image → Image → Image → Result Failure Rebased
rebase orig old_base new_base = do
  orig_layers ← orig.layers
  old_layers ← old_base.layers
  check_based_on old_layers orig_layers
  old_config ← old_base.config_file
  orig_config ← orig.config_file
  new_config ← new_base.config_file
  let start : Rebased = record {
    architecture = new_config.architecture;
    os = new_config.os;
    os_version = new_config.os_version;
    config = orig_config.config;
    adds = [];
  }
  new_layers ← new_base.layers
  below ← create_addendums 0 0 new_config.history new_layers
  rebased ← append start below
  above ←
      create_addendums (length old_config.history) (length old_layers + 1) orig_config.history
        orig_layers
  append rebased above
