-- ===== src/Name/Errors.antt =====
-- pkg/name/errors.go: the one kind of error that the parsers return. A constructor stands for a
-- format string of `NewErrBadName`, and its fields for the arguments.
use go_containerregistry.Prelude.{ℕ, Str, Result}

pub data ErrBadName : Type 0 where
  bad_length : Str → ℕ → ℕ → Str → ErrBadName
  bad_runes : Str → Str → Str → ErrBadName
  registry_not_explicit : ErrBadName
  bad_authority : Str → ErrBadName
  no_repository : ErrBadName
  missing_library : ErrBadName
  bad_separators : Str → ErrBadName
  not_a_reference : Str → ErrBadName

abbrev pub Parsed : Type 0 → Type 0
Parsed A = Result ErrBadName A
