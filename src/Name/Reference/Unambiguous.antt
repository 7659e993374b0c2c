-- ===== src/Name/Reference/Unambiguous.antt =====
-- No string is both a tag and a digest, so the order in which `ParseReference` tries them does
-- not matter.
use go_containerregistry.Prelude.{
  ◌≡◌, refl, true, false, ◌||◌, not, ap, List, [], ◌∷◌, Option, none, some, Str, contains, cut,
  cut-eq-some, split-lacks, is_empty, Bool-cases, inl, inr, ok, err,
}
use go_containerregistry.Name.Errors.{Parsed, bad_separators}
use go_containerregistry.Name.Options.{NameOption, make_options}
use go_containerregistry.Name.Check.Accepts.{IsOver-lacks}
use go_containerregistry.Name.Registry.{is_authority}
use go_containerregistry.Name.Registry.Accepts.{is_authority-lacks, new_registry-eq-ok}
use go_containerregistry.Name.Repository.{
  Repository, repository_chars, registry_part, new_repository,
}
use go_containerregistry.Name.Repository.Reparse.{
  at_no_host_byte, check_repository-eq-ok, new_repository-eq-ok,
}
use go_containerregistry.Name.Tag.{Tag, tag_chars, check_tag, tag_part, new_tag}
use go_containerregistry.Name.Tag.Parts.{tag_part-cases}
use go_containerregistry.Name.Tag.Reparse.{TagOrigin, new_tag-eq-ok, check_tag-eq-ok}
use go_containerregistry.Name.Digest.{Digest, new_digest}
use go_containerregistry.Name.Digest.Reparse.{at_no_repository_char, at_lacks_append}
use go_containerregistry.Name.Reference.{by_digest, parse_reference}

parts_lack :
    (s : Str) (o : Option (Str × Str))
    → cut s b'/' ≡ o
    → is_authority (registry_part s o).0 ≡ true
    → contains (registry_part s o).1 b'@' ≡ false
    → contains s b'@' ≡ false
unfolding registry_part
parts_lack s none e a p = p
parts_lack s (some (first, rest)) e a p =
    elim (Bool-cases (contains first b'.' || contains first b':')) [
      | inl d ↦ rw ((cut-eq-some s b'/' first rest e).0) (
          at_lacks_append first rest b'/' b'@' refl
            (is_authority-lacks first b'@' at_no_host_byte (rw d at a)) (rw d at p))
      | inr d ↦ rw d at p
    ]

-- A name is the two parts of it that are tested, with a slash between them if there is a registry.
registry_part-lacks :
    (s : Str)
    → is_authority (registry_part s (cut s b'/')).0 ≡ true
    → contains (registry_part s (cut s b'/')).1 b'@' ≡ false
    → contains s b'@' ≡ false
registry_part-lacks s a p = parts_lack s (cut s b'/') refl a p

new_repository-lacks_at :
    (s : Str) (opts : List NameOption) (r : Repository)
    → new_repository s opts ≡ ok r
    → contains s b'@' ≡ false
new_repository-lacks_at s opts r h =
    let o = new_repository-eq-ok s opts r h in
    registry_part-lacks s (new_registry-eq-ok _ opts r.registry o.made).authority (
      IsOver-lacks repository_chars _ b'@' at_no_repository_char
        (check_repository-eq-ok _ o.path).0)

at_no_tag_char : contains tag_chars b'@' ≡ false
unfolding contains
at_no_tag_char = refl

tag-lacks_at :
    (tag : Str) (opts : List NameOption)
    → ((not (is_empty tag) || (make_options opts).strict) ≡ true → check_tag tag ≡ ok tt)
    → contains tag b'@' ≡ false
tag-lacks_at [] opts c = unfold contains in refl
tag-lacks_at (x ∷ tag) opts c =
    IsOver-lacks tag_chars (x ∷ tag) b'@' at_no_tag_char (check_tag-eq-ok (x ∷ tag) (c refl)).over

new_tag-lacks_at :
    (s : Str) (opts : List NameOption) (t : Tag) → new_tag s opts ≡ ok t → contains s b'@' ≡ false
new_tag-lacks_at s opts t h = elim (tag_part-cases s) [
  | inl whole ↦ rw (ap (λ p. p.0) whole) at base_lacks
  | inr cut_off ↦ rw cut_off.0 (
      at_lacks_append (tag_part s).0 (tag_part s).1 b':' b'@' refl base_lacks
        (tag-lacks_at (tag_part s).1 opts origin.checked))
]
  where
    origin : TagOrigin s (tag_part s).0 (tag_part s).1 opts t
    origin = new_tag-eq-ok s opts t h

    base_lacks : contains (tag_part s).0 b'@' ≡ false
    base_lacks = new_repository-lacks_at (tag_part s).0 opts t.repository origin.repository

-- A string that is a tag has no `@`, so it is no digest.
pub new_tag-new_digest :
    (s : Str) (opts : List NameOption) (t : Tag)
    → new_tag s opts ≡ ok t
    → new_digest s opts ≡ err (bad_separators s)
unfolding new_digest
new_tag-new_digest s opts t h = rw (split-lacks s b'@' (new_tag-lacks_at s opts t h))

-- A string that is a digest is parsed as that digest, though tags are tried first.
pub parse_reference-digest :
    (s : Str) (opts : List NameOption) (d : Digest)
    → new_digest s opts ≡ ok d
    → parse_reference s opts ≡ ok (by_digest d)
unfolding parse_reference
parse_reference-digest s opts d h = tag_first (new_tag s opts) refl
  where
    tag_first : (o : Parsed Tag) → new_tag s opts ≡ o → parse_reference s opts ≡ ok (by_digest d)
    tag_first (ok t) e = cc (new_tag-new_digest s opts t e)
    tag_first (err x) e = rw (e, h)
