-- ===== src/Name/Examples.antt =====
-- The theorems on names at concrete references.
use go_containerregistry.Prelude.{
  ◌≡◌, ◌↔◌, ◌≤◌, refl, Bool, true, false, [], ◌∷◌, Str, codes, all, ltb, ok, err, length, arith,
  split, join, cut, contains, str_eq,
}
use go_containerregistry.Name.Check.{check_element, rune_count, strip_runes}
use go_containerregistry.Name.Check.Accepts.{IsOver, IsAscii, check_element_iff}
use go_containerregistry.Name.Errors.{bad_separators}
use go_containerregistry.Name.Options.{strict_validation, make_options}
use go_containerregistry.Name.Registry.{new_registry}
use go_containerregistry.Name.Repository.{
  Repository, repository_str, repository_name, new_repository, registry_part, check_repository,
  has_implicit_namespace,
}
use go_containerregistry.Name.Tag.{Tag, tag_name, new_tag, tag_part, check_tag, tag_chars}
use go_containerregistry.Name.Tag.Reparse.{spelled_out_tag, new_tag-tag_name}
use go_containerregistry.Name.Tag.Strict.{IsSpelledOut, new_tag-strict}
use go_containerregistry.Name.Digest.{
  Digest, digest_name, new_digest, digest_parts, digest_base, check_digest,
}
use go_containerregistry.Name.Digest.Reparse.{spelled_out_digest, new_digest-digest_name}
use go_containerregistry.Name.Reference.{by_digest, parse_reference}
use go_containerregistry.Name.Reference.Unambiguous.{new_tag-new_digest, parse_reference-digest}

abbrev ubuntu : Tag
ubuntu = record {
  repository = record {
    registry = record { insecure = false; registry = codes "index.docker.io" };
    repository = codes "ubuntu";
  };
  tag = codes "latest";
  original = codes "ubuntu";
}

ubuntu-parsed : new_tag (codes "ubuntu") [] ≡ ok ubuntu
unfolding new_tag tag_part check_tag split cut contains join rune_count strip_runes new_repository
    registry_part check_repository has_implicit_namespace new_registry str_eq make_options
ubuntu-parsed = refl

ubuntu-short : length (repository_str ubuntu.repository) ≤ 255
unfolding repository_str has_implicit_namespace str_eq contains
ubuntu-short = omega arith

new_tag-tag_name_example :
    (new_tag (tag_name ubuntu) [] ≡ ok (spelled_out_tag ubuntu []))
    × (tag_name (spelled_out_tag ubuntu []) ≡ tag_name ubuntu)
unfolding make_options
new_tag-tag_name_example =
    new_tag-tag_name (codes "ubuntu") [] ubuntu refl refl ubuntu-parsed ubuntu-short

new_tag-new_digest_example : new_digest (codes "ubuntu") [] ≡ err (bad_separators (codes "ubuntu"))
new_tag-new_digest_example = new_tag-new_digest (codes "ubuntu") [] ubuntu ubuntu-parsed

abbrev strict_text : Str
strict_text = codes "localhost:5000/foo/ubuntu:v1"

abbrev strict_repository : Repository
strict_repository = record {
  registry = record { insecure = false; registry = codes "localhost:5000" };
  repository = codes "foo/ubuntu";
}

abbrev strict_tag : Tag
strict_tag = record { repository = strict_repository; tag = codes "v1"; original = strict_text }

strict_tag-parsed : new_tag strict_text (strict_validation ∷ []) ≡ ok strict_tag
unfolding new_tag tag_part check_tag split cut contains join rune_count strip_runes new_repository
    registry_part check_repository has_implicit_namespace new_registry str_eq make_options
    strict_validation
strict_tag-parsed = refl

new_tag-strict_example : IsSpelledOut strict_text (tag_name strict_tag)
unfolding make_options strict_validation
new_tag-strict_example =
    new_tag-strict strict_text (strict_validation ∷ []) strict_tag refl strict_tag-parsed

strict_repository-parsed :
    new_repository (codes "localhost:5000/foo/ubuntu") (strict_validation ∷ [])
    ≡ ok strict_repository
unfolding split cut contains join rune_count strip_runes new_repository registry_part
    check_repository has_implicit_namespace new_registry str_eq make_options strict_validation
strict_repository-parsed = refl

abbrev digest_text : Str
digest_text = codes "sha256:0123456789abcdef0123456789abcdef0123456789abcdef0123456789abcdef"

abbrev ubuntu_digest : Digest
ubuntu_digest = record {
  repository = record ubuntu.repository { repository = codes "library/ubuntu" };
  digest = digest_text;
  original = codes "ubuntu@sha256:0123456789abcdef0123456789abcdef0123456789abcdef0123456789abcdef";
}

ubuntu_digest-parsed : new_digest ubuntu_digest.original [] ≡ ok ubuntu_digest
unfolding new_digest digest_parts digest_base check_digest new_tag tag_part check_tag split cut
    contains join rune_count strip_runes new_repository registry_part check_repository
    has_implicit_namespace new_registry str_eq make_options repository_name
ubuntu_digest-parsed = refl

library-short : length (repository_str ubuntu_digest.repository) ≤ 255
unfolding repository_str has_implicit_namespace str_eq contains
library-short = omega arith

new_digest-digest_name_example :
    (new_digest (digest_name ubuntu_digest) [] ≡ ok (spelled_out_digest ubuntu_digest []))
    × (digest_name (spelled_out_digest ubuntu_digest []) ≡ digest_name ubuntu_digest)
unfolding make_options
new_digest-digest_name_example =
    new_digest-digest_name ubuntu_digest.original [] ubuntu_digest refl ubuntu_digest-parsed
      library-short

parse_reference-digest_example :
    parse_reference ubuntu_digest.original [] ≡ ok (by_digest ubuntu_digest)
parse_reference-digest_example =
    parse_reference-digest ubuntu_digest.original [] ubuntu_digest ubuntu_digest-parsed

is_ascii : Str → Bool
is_ascii = all (λ c. ltb c 0x80)

is_ascii-IsAscii : (s : Str) → is_ascii s ≡ true → IsAscii s
unfolding is_ascii
is_ascii-IsAscii [] h = tt
is_ascii-IsAscii (c ∷ s) h = (ground arith, is_ascii-IsAscii s (ground arith))

tag_chars-IsAscii : IsAscii tag_chars
unfolding is_ascii
tag_chars-IsAscii = is_ascii-IsAscii tag_chars refl

check_element_iff_example :
    (check_element (codes "tag") (codes "v1.0") tag_chars 1 128 ≡ ok tt)
    ↔ (IsOver tag_chars (codes "v1.0") × (1 ≤ 4) × (4 ≤ 128))
check_element_iff_example =
    check_element_iff (codes "tag") (codes "v1.0") tag_chars 1 128 tag_chars-IsAscii
