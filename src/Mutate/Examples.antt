-- ===== src/Mutate/Examples.antt =====
-- The theorems on rebasing at concrete images.
use go_containerregistry.Prelude.{
  ◌≡◌, ◌↔◌, refl, true, false, List, [], ◌∷◌, none, some, Str, codes, ok, ◌++◌,
}
use go_containerregistry.Mutate.Rebase.{
  History, Layer, Addendum, ConfigFile, Image, create_addendums, check_based_on, rebase,
}
use go_containerregistry.Mutate.Rebase.Stacks.{IsStack, done, bare, layered, create_addendums-stack}
use go_containerregistry.Mutate.Rebase.Based.{
  IsBased, SameDigests, no_history, create_addendums-no_history, check_based_on_iff, rebase_lem,
}

abbrev layer_named : Str → Layer
layer_named name = record {
  name = name;
  digest = ok (record { algorithm = codes "sha256"; hex = name });
}

abbrev run : Str → History
run text = record { text = text; empty_layer = false }

abbrev env : Str → History
env text = record { text = text; empty_layer = true }

abbrev config_of : Str → List History → ConfigFile
config_of os history = record {
  history = history;
  architecture = codes "arm";
  os = os;
  os_version = [];
  config = codes "entrypoint";
}

abbrev image_of : List Layer → ConfigFile → Image
image_of layers config = record { layers = ok layers; config_file = ok config }

abbrev old_base : Image
old_base = image_of (layer_named (codes "a") ∷ []) (config_of (codes "old") (run (codes "A") ∷ []))

abbrev orig : Image
orig =
    image_of (layer_named (codes "a") ∷ layer_named (codes "b") ∷ [])
      (config_of (codes "orig") (run (codes "A") ∷ env (codes "E") ∷ run (codes "B") ∷ []))

abbrev new_base : Image
new_base = image_of (layer_named (codes "n") ∷ []) (config_of (codes "new") (run (codes "N") ∷ []))

abbrev base_adds : List Addendum
base_adds = record { layer = some (layer_named (codes "a")); history = run (codes "A") } ∷ []

abbrev top_adds : List Addendum
top_adds =
    record { layer = none; history = env (codes "E") }
    ∷ record { layer = some (layer_named (codes "b")); history = run (codes "B") }
    ∷ []

abbrev new_adds : List Addendum
new_adds = record { layer = some (layer_named (codes "n")); history = run (codes "N") } ∷ []

base-IsStack : IsStack (run (codes "A") ∷ []) (layer_named (codes "a") ∷ []) base_adds
base-IsStack = layered _ _ refl done

top-IsStack :
    IsStack (env (codes "E") ∷ run (codes "B") ∷ []) (layer_named (codes "b") ∷ []) top_adds
top-IsStack = bare _ refl (layered _ _ refl done)

new-IsStack : IsStack (run (codes "N") ∷ []) (layer_named (codes "n") ∷ []) new_adds
new-IsStack = layered _ _ refl done

create_addendums-stack_example :
    create_addendums 1 2
      (run (codes "A") ∷ env (codes "E") ∷ run (codes "B") ∷ [])
      (layer_named (codes "a") ∷ layer_named (codes "b") ∷ [])
    ≡ ok top_adds
create_addendums-stack_example = create_addendums-stack base-IsStack top-IsStack

orig-IsBased : IsBased orig old_base new_base new_adds top_adds
orig-IsBased = record {
  old_layers = layer_named (codes "a") ∷ [];
  base_layers = layer_named (codes "a") ∷ [];
  top_layers = layer_named (codes "b") ∷ [];
  new_layers = layer_named (codes "n") ∷ [];
  old_config = config_of (codes "old") (run (codes "A") ∷ []);
  orig_config = config_of (codes "orig") (run (codes "A") ∷ env (codes "E") ∷ run (codes "B") ∷ []);
  new_config = config_of (codes "new") (run (codes "N") ∷ []);
  top = env (codes "E") ∷ run (codes "B") ∷ [];
  covered = base_adds;
  orig_layers_eq = refl;
  old_layers_eq = refl;
  new_layers_eq = refl;
  orig_config_eq = refl;
  old_config_eq = refl;
  new_config_eq = refl;
  same_count = refl;
  same_digests = ((_, refl, refl), tt);
  history_eq = refl;
  base_stack = base-IsStack;
  top_stack = top-IsStack;
  new_stack = new-IsStack;
}

rebase_lem_example :
    rebase orig old_base new_base
    ≡ ok (record {
      architecture = codes "arm";
      os = codes "new";
      os_version = [];
      config = codes "entrypoint";
      adds = new_adds ++ top_adds;
    })
unfolding orig-IsBased
rebase_lem_example = rebase_lem orig old_base new_base new_adds top_adds orig-IsBased

check_based_on_iff_example :
    (check_based_on
        (layer_named (codes "a") ∷ [])
        (layer_named (codes "a") ∷ layer_named (codes "b") ∷ [])
      ≡ ok tt)
    ↔ SameDigests
        (layer_named (codes "a") ∷ [])
        (layer_named (codes "a") ∷ layer_named (codes "b") ∷ [])
check_based_on_iff_example =
    check_based_on_iff (layer_named (codes "a") ∷ [])
      (layer_named (codes "a") ∷ layer_named (codes "b") ∷ [])

-- two layers without history: the first is appended twice
create_addendums-no_history_example :
    create_addendums 0 0 [] (layer_named (codes "a") ∷ layer_named (codes "b") ∷ [])
    ≡ ok (no_history (layer_named (codes "a")) ∷ no_history (layer_named (codes "a")) ∷ [])
create_addendums-no_history_example =
    create_addendums-no_history 0 0 (layer_named (codes "a")) (layer_named (codes "b") ∷ [])
