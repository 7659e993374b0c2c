-- ===== src/Authn/Examples.antt =====
-- Three keychains, of which the second knows the registry.
use go_containerregistry.Prelude.{List, [], ◌∷◌, codes, ok, err}
use go_containerregistry.Authn.Keychains.{
  anonymous, basic, Resource, Keychain, resolve_multi, IsResolved, resolve_multi-IsResolved,
}

abbrev none_known : Keychain
none_known target = ok anonymous

abbrev knows : Keychain
knows target = ok (basic (codes "user") (codes "secret"))

abbrev fails : Keychain
fails target = err (codes "no file")

abbrev three : List Keychain
three = none_known ∷ knows ∷ fails ∷ []

abbrev my_registry : Resource
my_registry = record { string = codes "gcr.io/p"; registry_str = codes "gcr.io" }

resolve_multi-IsResolved_example : IsResolved three my_registry (resolve_multi three my_registry)
resolve_multi-IsResolved_example = resolve_multi-IsResolved three my_registry
