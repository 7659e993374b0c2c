-- ===== src/Name/Options.antt =====
-- pkg/name/options.go: what the options of a call make of the defaults.
use mathlib.Core.List.{foldl}
use go_containerregistry.Prelude.{Str, codes, Bool, true, false, List}

abbrev pub default_registry_name : Str
default_registry_name = codes "index.docker.io"

abbrev pub default_registry_alias : Str
default_registry_alias = codes "docker.io"

abbrev pub default_tag_name : Str
default_tag_name = codes "latest"

pub record Options : Type 0 where
  pub strict : Bool
  pub insecure : Bool
  pub default_registry : Str
  pub default_tag : Str

abbrev pub NameOption : Type 0
NameOption = Options → Options

-- `for _, o := range opts { o(&opt) }`
unfoldable pub make_options : List NameOption → Options
make_options =
    foldl (λ opt o. o opt)
      (record {
        strict = false;
        insecure = false;
        default_registry = default_registry_name;
        default_tag = default_tag_name;
      })

unfoldable pub strict_validation : NameOption
strict_validation opts = record opts { strict = true }

unfoldable pub weak_validation : NameOption
weak_validation opts = record opts { strict = false }

unfoldable pub insecure : NameOption
insecure opts = record opts { insecure = true }

unfoldable pub with_default_registry : Str → NameOption
with_default_registry r opts = record opts { default_registry = r }

unfoldable pub with_default_tag : Str → NameOption
with_default_tag t opts = record opts { default_tag = t }
