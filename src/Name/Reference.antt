-- ===== src/Name/Reference.antt =====
-- pkg/name/ref.go: a reference is a tag or a digest.
pub mod Unambiguous
use go_containerregistry.Prelude.{List, Str, ok, err}
use go_containerregistry.Name.Errors.{Parsed, not_a_reference}
use go_containerregistry.Name.Options.{NameOption}
use go_containerregistry.Name.Repository.{Repository}
use go_containerregistry.Name.Tag.{Tag, tag_name, tag_scope, new_tag}
use go_containerregistry.Name.Digest.{Digest, digest_name, digest_scope, new_digest}

pub data Reference : Type 0 where
  by_tag : Tag → Reference
  by_digest : Digest → Reference

unfoldable pub context : Reference → Repository
context (by_tag t) = t.repository
context (by_digest d) = d.repository

unfoldable pub identifier : Reference → Str
identifier (by_tag t) = t.tag
identifier (by_digest d) = d.digest

unfoldable pub reference_name : Reference → Str
reference_name (by_tag t) = tag_name t
reference_name (by_digest d) = digest_name d

unfoldable pub reference_scope : Reference → Str → Str
reference_scope (by_tag t) = tag_scope t
reference_scope (by_digest d) = digest_scope d

or_digest : Str → Parsed Digest → Parsed Reference
or_digest s (ok d) = ok (by_digest d)
or_digest s (err e) = err (not_a_reference s)

or_tag : Str → List NameOption → Parsed Tag → Parsed Reference
unfolding or_digest
or_tag s opts (ok t) = ok (by_tag t)
or_tag s opts (err e) = or_digest s (new_digest s opts)

unfoldable pub parse_reference : Str → List NameOption → Parsed Reference
unfolding or_tag
parse_reference s opts = or_tag s opts (new_tag s opts)
