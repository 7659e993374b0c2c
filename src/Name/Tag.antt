-- ===== src/Name/Tag.antt =====
-- pkg/name/tag.go.
pub mod Parts
pub mod Strict
pub mod Reparse
use go_containerregistry.Prelude.{
  ◌&&◌, ◌||◌, not, List, [], ◌∷◌, ◌++◌, Str, codes, contains, is_empty, split, join, length,
  last_or, drop_last, ltb, if◌then◌else◌, ok, ◌>>=◌, ◌>>◌,
}
use go_containerregistry.Name.Errors.{Parsed}
use go_containerregistry.Name.Options.{NameOption, make_options}
use go_containerregistry.Name.Check.{check_element}
use go_containerregistry.Name.Repository.{
  Repository, repository_name, repository_scope, new_repository,
}

abbrev pub tag_chars : Str
tag_chars = codes "abcdefghijklmnopqrstuvwxyz0123456789_-.ABCDEFGHIJKLMNOPQRSTUVWXYZ"

pub record Tag : Type 0 where
  pub repository : Repository
  pub tag : Str
  pub original : Str

unfoldable pub tag_name : Tag → Str
tag_name t = repository_name t.repository ++ b':' ∷ t.tag

unfoldable pub tag_scope : Tag → Str → Str
tag_scope t action = repository_scope t.repository action

-- Repository.Tag: the tag of a repository, with no check of the identifier
unfoldable pub tag_of : Repository → Str → Tag
unfolding tag_name
tag_of r identifier = record {
  repository = r;
  tag = identifier;
  original = tag_name (record { repository = r; tag = identifier; original = [] });
}

unfoldable pub check_tag : Str → Parsed Unit
unfolding check_element
check_tag name = check_element (codes "tag") name tag_chars 1 128

-- The last part behind a colon is the tag, unless it has a slash and so follows a port.
unfoldable pub tag_part : Str → Str × Str
tag_part name =
    let parts = split name b':' in
    if ltb 1 (length parts) && not (contains (last_or [] parts) b'/')
    then (join (drop_last parts) b':', last_or [] parts)
    else (name, [])

unfoldable pub new_tag : Str → List NameOption → Parsed Tag
new_tag name opts = do
  let opt = make_options opts
  let (base, tag) = tag_part name
  if not (is_empty tag) || opt.strict then check_tag tag else ok tt
  let tag' = if is_empty tag then opt.default_tag else tag
  repo ← new_repository base opts
  ok (record { repository = repo; tag = tag'; original = name })
