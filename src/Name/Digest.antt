-- ===== src/Name/Digest.antt =====
-- pkg/name/digest.go.
pub mod Reparse
use go_containerregistry.Prelude.{◌+◌, List, [], ◌∷◌, ◌++◌, Str, codes, split, ok, err, ◌>>=◌, ◌>>◌}
use go_containerregistry.Name.Errors.{Parsed, bad_separators}
use go_containerregistry.Name.Options.{NameOption}
use go_containerregistry.Name.Check.{check_element}
use go_containerregistry.Name.Repository.{
  Repository, repository_name, repository_scope, new_repository,
}
use go_containerregistry.Name.Tag.{Tag, new_tag}

abbrev pub digest_chars : Str
digest_chars = codes "sh:0123456789abcdef"

pub record Digest : Type 0 where
  pub repository : Repository
  pub digest : Str
  pub original : Str

unfoldable pub digest_name : Digest → Str
digest_name d = repository_name d.repository ++ b'@' ∷ d.digest

unfoldable pub digest_scope : Digest → Str → Str
digest_scope d action = repository_scope d.repository action

-- Repository.Digest: the digest of a repository, with no check of the identifier
unfoldable pub digest_of : Repository → Str → Digest
unfolding digest_name
digest_of r identifier = record {
  repository = r;
  digest = identifier;
  original = digest_name (record { repository = r; digest = identifier; original = [] });
}

unfoldable pub check_digest : Str → Parsed Unit
unfolding check_element
check_digest name = check_element (codes "digest") name digest_chars (7 + 64) (7 + 64)

-- `if err == nil { base = tag.Repository.Name() }`
unfoldable pub digest_base : Str → Parsed Tag → Str
digest_base base (ok tag) = repository_name tag.repository
digest_base base (err e) = base

unfoldable pub digest_parts : Str → List NameOption → List Str → Parsed Digest
digest_parts name opts (base ∷ digest ∷ []) = do
  check_digest digest
  repo ← new_repository (digest_base base (new_tag base opts)) opts
  ok (record { repository = repo; digest = digest; original = name })
digest_parts name opts _ = err (bad_separators name)

unfoldable pub new_digest : Str → List NameOption → Parsed Digest
unfolding digest_parts
new_digest name opts = digest_parts name opts (split name b'@')
