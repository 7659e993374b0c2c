-- ===== src/Name/Repository.antt =====
-- pkg/name/repository.go.
pub mod Reparse
use go_containerregistry.Prelude.{
  Bool, ◌&&◌, ◌||◌, not, List, [], ◌∷◌, ◌++◌, Option, none, some, Str, codes, contains, is_empty,
  str_eq, cut, if◌then◌else◌, ok, err, ◌>>=◌, ◌>>◌,
}
use go_containerregistry.Name.Errors.{Parsed, no_repository, missing_library}
use go_containerregistry.Name.Options.{NameOption, make_options, default_registry_name}
use go_containerregistry.Name.Check.{check_element}
use go_containerregistry.Name.Registry.{Registry, registry_str, registry_name, new_registry}

abbrev pub repository_chars : Str
repository_chars = codes "abcdefghijklmnopqrstuvwxyz0123456789_-./"

abbrev pub default_namespace : Str
default_namespace = codes "library"

pub record Repository : Type 0 where
  pub registry : Registry
  pub repository : Str

unfoldable pub has_implicit_namespace : Str → Registry → Bool
unfolding registry_str
has_implicit_namespace repo reg =
    not (contains repo b'/') && str_eq (registry_str reg) default_registry_name

unfoldable pub repository_str : Repository → Str
unfolding has_implicit_namespace
repository_str r =
    if has_implicit_namespace r.repository r.registry
    then default_namespace ++ b'/' ∷ r.repository
    else r.repository

unfoldable pub repository_name : Repository → Str
unfolding registry_name repository_str
repository_name r =
    let reg_name = registry_name r.registry in
    if not (is_empty reg_name) then reg_name ++ b'/' ∷ repository_str r else repository_str r

unfoldable pub repository_scope : Repository → Str → Str
unfolding repository_str
repository_scope r action = codes "repository:" ++ (repository_str r ++ b':' ∷ action)

unfoldable pub check_repository : Str → Parsed Unit
unfolding check_element
check_repository repository = check_element (codes "repository") repository repository_chars 2 255

-- The first part of a name is a registry if it has a dot or a colon: the registry, and the rest.
unfoldable pub registry_part : Str → Option (Str × Str) → Str × Str
registry_part name none = ([], name)
registry_part name (some (first, rest)) =
    if contains first b'.' || contains first b':' then (first, rest) else ([], name)

unfoldable pub new_repository : Str → List NameOption → Parsed Repository
new_repository name opts =
    let opt = make_options opts in
    if is_empty name then err no_repository else do
      let (registry, repo) = registry_part name (cut name b'/')
      check_repository repo
      reg ← new_registry registry opts
      if has_implicit_namespace repo reg && opt.strict
          then err missing_library
          else ok (record { registry = reg; repository = repo })
