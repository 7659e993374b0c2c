-- ===== src/Name/Registry.antt =====
-- pkg/name/registry.go: the registry's part of a name. `Scheme` is in the module of that name.
pub mod Accepts
use go_containerregistry.Prelude.{
  ℕ, Bool, true, ◌&&◌, ◌||◌, not, List, [], ◌∷◌, ◌++◌, Str, codes, contains, is_empty, str_eq,
  split, last_or, all, leb, ◌==◌, if◌then◌else◌, ok, err, ◌>>◌,
}
use go_containerregistry.Name.Errors.{Parsed, registry_not_explicit, bad_authority}
use go_containerregistry.Name.Options.{
  NameOption, make_options, insecure, default_registry_name, default_registry_alias,
}

pub record Registry : Type 0 where
  pub insecure : Bool
  pub registry : Str

unfoldable pub registry_str : Registry → Str
registry_str r = r.registry

unfoldable pub registry_name : Registry → Str
unfolding registry_str
registry_name r = registry_str r

unfoldable pub registry_scope : Registry → Str → Str
registry_scope r action = codes "registry:catalog:*"

abbrev pub is_digit : ℕ → Bool
is_digit c = leb b'0' c && leb c b'9'

-- The bytes that net/url takes in a host as they are. A `%` is taken only as part of an escape,
-- and an escape never unescapes to itself.
unfoldable pub is_host_byte : ℕ → Bool
is_host_byte c =
    leb 0x80 c
    || (leb b'a' c && leb c b'z')
    || (leb b'A' c && leb c b'Z')
    || is_digit c
    || contains (codes "!$&'()*+,;=:[]<>\"-_.~") c

-- validOptionalPort of net/url, after the colon
abbrev port_digits : Str → Bool
port_digits = all is_digit

valid_optional_port : Str → Bool
valid_optional_port [] = true
valid_optional_port (c ∷ s) = c == b':' && port_digits s

-- parseHost of net/url: an address in brackets may be followed by a port, and so may a host.
valid_port : Str → Bool
unfolding valid_optional_port
valid_port [] = true
valid_port (c ∷ s) =
    if c == b'['
    then contains s b']' && valid_optional_port (last_or [] (split s b']'))
    else not (contains (c ∷ s) b':') || port_digits (last_or [] (split (c ∷ s) b':'))

-- `url, err := url.Parse("//" + name)` has no error and `url.Host == name`.
unfoldable pub is_authority : Str → Bool
unfolding is_host_byte valid_port
is_authority name = all is_host_byte name && valid_port name

unfoldable pub check_registry : Str → Parsed Unit
unfolding is_authority
check_registry name = if is_authority name then ok tt else err (bad_authority name)

unfoldable pub new_registry : Str → List NameOption → Parsed Registry
unfolding check_registry
new_registry name opts =
    let opt = make_options opts in
    if opt.strict && is_empty name then err registry_not_explicit else do
      check_registry name
      let name1 = if is_empty name then opt.default_registry else name
      let name2 = if str_eq name1 default_registry_alias then default_registry_name else name1
      ok (record { insecure = opt.insecure; registry = name2 })

unfoldable pub new_insecure_registry : Str → List NameOption → Parsed Registry
unfolding insecure
new_insecure_registry name opts = new_registry name (opts ++ insecure ∷ [])
