-- ===== src/Name/Tag/Reparse.antt =====
-- What `NewTag` accepts, and that the name of a tag is parsed back to the same name.
use go_containerregistry.Prelude.{
  ◌≤◌, ◌≡◌, refl, ap, true, false, ◌||◌, not, List, [], ◌∷◌, ◌++◌, Str, codes, contains, is_empty,
  length, if◌then◌else◌, ok, arith,
}
use go_containerregistry.Name.Options.{NameOption, make_options, default_tag_name}
use go_containerregistry.Name.Check.Accepts.{IsOver, IsOver-lacks, check_element_iff}
use go_containerregistry.Name.Repository.{
  Repository, repository_str, repository_name, new_repository,
}
use go_containerregistry.Name.Repository.Reparse.{
  HasDefaultRegistry, IsParsed, spelled_out, new_repository-name, repository_name-spelled,
  new_repository-IsParsed,
}
use go_containerregistry.Name.Tag.{Tag, tag_chars, tag_name, check_tag, tag_part, new_tag}
use go_containerregistry.Name.Tag.Parts.{tag_part-append}

pub record IsTagStr (tag : Str) : Type 0 where
  pub over : IsOver tag_chars tag
  pub not_empty : 1 ≤ length tag
  pub bound : length tag ≤ 128

pub check_tag-eq-ok : (tag : Str) → check_tag tag ≡ ok tt → IsTagStr tag
unfolding check_tag
check_tag-eq-ok tag h =
    let parts = (check_element_iff (codes "tag") tag tag_chars 1 128 (omega arith)).0 h in
    record { over = parts.0; not_empty = parts.1; bound = parts.2 }

pub check_tag-IsTagStr : (tag : Str) → IsTagStr tag → check_tag tag ≡ ok tt
unfolding check_tag
check_tag-IsTagStr tag v =
    (check_element_iff (codes "tag") tag tag_chars 1 128 (omega arith)).1
      (v.over, v.not_empty, v.bound)

colon_no_tag_char : contains tag_chars b':' ≡ false
unfolding contains
colon_no_tag_char = refl

slash_no_tag_char : contains tag_chars b'/' ≡ false
unfolding contains
slash_no_tag_char = refl

latest-IsTagStr : IsTagStr default_tag_name
unfolding contains
latest-IsTagStr = record {
  over = (refl, (refl, (refl, (refl, (refl, (refl, tt))))));
  not_empty = omega arith;
  bound = omega arith;
}

-- What a successful `NewTag` went through.
pub record TagOrigin (s base tag : Str) (opts : List NameOption) (t : Tag) : Type 0 where
  pub checked : (not (is_empty tag) || (make_options opts).strict) ≡ true → check_tag tag ≡ ok tt
  pub repository : new_repository base opts ≡ ok t.repository
  pub kept : t.tag ≡ (if is_empty tag then (make_options opts).default_tag else tag)
  pub original : t.original ≡ s

TagOrigin-pieces :
    (s base tag : Str) (opts : List NameOption) (t : Tag)
    → tag_part s ≡ (base, tag)
    → new_tag s opts ≡ ok t
    → TagOrigin s base tag opts t
unfolding new_tag
TagOrigin-pieces s base tag opts t p h = ground arith

pub new_tag-eq-ok :
    (s : Str) (opts : List NameOption) (t : Tag)
    → new_tag s opts ≡ ok t
    → TagOrigin s (tag_part s).0 (tag_part s).1 opts t
new_tag-eq-ok s opts t h = TagOrigin-pieces s _ _ opts t refl h

-- The options leave the default tag as it is.
abbrev pub HasDefaultTag : List NameOption → Type 0
HasDefaultTag opts = (make_options opts).default_tag ≡ default_tag_name

tag_chosen :
    (tag : Str) (opts : List NameOption)
    → HasDefaultTag opts
    → ((not (is_empty tag) || (make_options opts).strict) ≡ true → check_tag tag ≡ ok tt)
    → IsTagStr (if is_empty tag then (make_options opts).default_tag else tag)
tag_chosen [] opts d c = rw d latest-IsTagStr
tag_chosen (x ∷ tag) opts d c = check_tag-eq-ok (x ∷ tag) (c refl)

-- The tag of a parsed tag is a valid one, the default tag included.
pub new_tag-IsTagStr :
    (s : Str) (opts : List NameOption) (t : Tag)
    → HasDefaultTag opts
    → new_tag s opts ≡ ok t
    → IsTagStr t.tag
new_tag-IsTagStr s opts t d h =
    let o = new_tag-eq-ok s opts t h in rw o.kept (tag_chosen (tag_part s).1 opts d o.checked)

new_tag-pieces :
    (s base tag : Str) (opts : List NameOption) (r : Repository)
    → tag_part s ≡ (base, tag)
    → is_empty tag ≡ false
    → check_tag tag ≡ ok tt
    → new_repository base opts ≡ ok r
    → new_tag s opts ≡ ok (record { repository = r; tag = tag; original = s })
unfolding new_tag
new_tag-pieces s base tag opts r p e c n = rw (p, e, c, n)

not_empty_of_length : (s : Str) → 1 ≤ length s → is_empty s ≡ false
not_empty_of_length [] h = absurd (omega arith)
not_empty_of_length (x ∷ s) h = refl

-- The tag that the parse of a tag's name gives.
abbrev pub spelled_out_tag : Tag → List NameOption → Tag
spelled_out_tag t opts = record {
  repository = spelled_out t.repository (make_options opts).insecure;
  tag = t.tag;
  original = tag_name t;
}

tag_name-reparsed :
    (t : Tag) (opts : List NameOption)
    → IsTagStr t.tag
    → IsParsed t.repository
    → new_tag (tag_name t) opts ≡ ok (spelled_out_tag t opts)
unfolding tag_name
tag_name-reparsed t opts v p =
    new_tag-pieces _ (repository_name t.repository) t.tag opts _
      (tag_part-append (repository_name t.repository) t.tag
        (IsOver-lacks tag_chars t.tag b':' colon_no_tag_char v.over)
        (IsOver-lacks tag_chars t.tag b'/' slash_no_tag_char v.over))
      (not_empty_of_length t.tag v.not_empty) (check_tag-IsTagStr t.tag v)
      (new_repository-name t.repository opts p)

tag_name-spelled :
    (t : Tag) (opts : List NameOption) → tag_name (spelled_out_tag t opts) ≡ tag_name t
unfolding tag_name
tag_name-spelled t opts =
    ap (λ n. n ++ b':' ∷ t.tag) (repository_name-spelled t.repository (make_options opts).insecure)

-- With the default registry and tag, the name of a parsed tag whose path with its namespace has
-- at most 255 bytes is parsed again: to the same registry, path and tag, under the same name.
pub new_tag-tag_name :
    (s : Str) (opts : List NameOption) (t : Tag)
    → HasDefaultRegistry opts
    → HasDefaultTag opts
    → new_tag s opts ≡ ok t
    → length (repository_str t.repository) ≤ 255
    → (new_tag (tag_name t) opts ≡ ok (spelled_out_tag t opts))
      × (tag_name (spelled_out_tag t opts) ≡ tag_name t)
new_tag-tag_name s opts t dr dt h n =
    let o = new_tag-eq-ok s opts t h in
    (
      tag_name-reparsed t opts (new_tag-IsTagStr s opts t dt h)
          (new_repository-IsParsed _ opts t.repository dr o.repository n),
      tag_name-spelled t opts,
    )
