-- ===== src/Transport/Values.antt =====
-- Go's url.Values and http.Header, of one value for a key.
use go_containerregistry.Prelude.{List, [], ◌∷◌, Option, none, some, Str, str_eq, if◌then◌else◌}
use go_containerregistry.Platform.Descriptors.{annotation_at}

-- the value of a query, or of a header, empty where there is none
abbrev pub value_or_empty : Option Str → Str
value_or_empty none = []
value_or_empty (some v) = v

unfoldable pub get : List (Str × Str) → Str → Str
get kvs key = value_or_empty (annotation_at kvs key)

-- url.Values.Set
without : List (Str × Str) → Str → List (Str × Str)
without [] key = []
without ((k, v) ∷ kvs) key =
    let rest = without kvs key in if str_eq k key then rest else (k, v) ∷ rest

unfoldable pub set_value : List (Str × Str) → Str → Str → List (Str × Str)
unfolding without
set_value kvs key v = (key, v) ∷ without kvs key
