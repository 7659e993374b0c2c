-- ===== src/Name/Tag/Strict.antt =====
-- Strict validation: nothing of the name that is parsed comes from a default.
use go_containerregistry.Prelude.{
  ◌≤◌, subst, ap₂, length, ◌≡◌, refl, sym, ap, ◌∙◌, true, false, ◌||◌, ◌&&◌, not, List, [], ◌∷◌,
  ◌++◌, Option, none, some, Str, contains, cut, cut-eq-some, is_empty, str_eq, str_eq_iff,
  Bool-cases, ◌⊎◌, inl, inr, if◌then◌else◌, ok, arith,
}
use go_containerregistry.Name.Options.{
  NameOption, make_options, default_registry_name, default_registry_alias,
}
use go_containerregistry.Name.Registry.{Registry}
use go_containerregistry.Name.Registry.Accepts.{Accepted, resolved, new_registry-eq-ok}
use go_containerregistry.Name.Repository.{
  Repository, registry_part, repository_name, has_implicit_namespace, new_repository,
}
use go_containerregistry.Name.Repository.Reparse.{
  Origin, new_repository-eq-ok, repository_str-explicit, repository_name-append,
}
use go_containerregistry.Name.Tag.{Tag, tag_name, tag_part, new_tag}
use go_containerregistry.Name.Tag.Parts.{tag_part-cases}
use go_containerregistry.Name.Tag.Reparse.{IsTagStr, TagOrigin, new_tag-eq-ok, check_tag-eq-ok}

abbrev pub IsStrict : List NameOption → Type 0
IsStrict opts = (make_options opts).strict ≡ true

-- The name as it is written, or with the alias of Docker Hub's registry resolved.
abbrev pub IsSpelledOut : Str → Str → Type 0
IsSpelledOut s name =
    (name ≡ s)
    ⊎ ((rest : Str) × (s ≡ default_registry_alias ++ b'/' ∷ rest)
        × (name ≡ default_registry_name ++ b'/' ∷ rest))

-- With a strict option, the registry part is not empty, so it stands in the name.
strict-registry :
    (s : Str) (o : Option (Str × Str))
    → cut s b'/' ≡ o
    → is_empty (registry_part s o).0 ≡ false
    → s ≡ (registry_part s o).0 ++ b'/' ∷ (registry_part s o).1
unfolding registry_part
strict-registry s none e h = cc
strict-registry s (some (first, rest)) e h =
    elim (Bool-cases (contains first b'.' || contains first b':')) [
      | inl d ↦ rw d (cut-eq-some s b'/' first rest e).0
      | inr d ↦ cc (rw d at h)
    ]

resolved-spelled :
    (reg path : Str) (default : Str)
    → is_empty reg ≡ false
    → IsSpelledOut (reg ++ b'/' ∷ path) (resolved reg default ++ b'/' ∷ path)
resolved-spelled reg path default h = elim (Bool-cases (str_eq reg default_registry_alias)) [
  | inl e ↦ rw (h, e) (inr (path, ap (λ r. r ++ b'/' ∷ path) ((str_eq_iff _ _).0 e), refl))
  | inr e ↦ rw (h, e) (inl refl)
]

resolved-not-empty :
    (reg default : Str) → is_empty reg ≡ false → is_empty (resolved reg default) ≡ false
resolved-not-empty reg default h = elim (Bool-cases (str_eq reg default_registry_alias)) [
  | inl e ↦ rw (h, e)
  | inr e ↦ rw (h, e) h
]

explicit_registry :
    (s : Str) (opts : List NameOption) (r : Registry)
    → IsStrict opts
    → Accepted s opts r
    → is_empty s ≡ false
explicit_registry s opts r st a = ground (arith, a.explicit)

strict_namespace :
    (path : Str) (opts : List NameOption) (r : Registry)
    → IsStrict opts
    → (has_implicit_namespace path r && (make_options opts).strict) ≡ false
    → has_implicit_namespace path r ≡ false
strict_namespace path opts r st h = ground arith

-- Strict validation of a repository uses no default registry and adds no namespace.
pub new_repository-strict :
    (s : Str) (opts : List NameOption) (r : Repository)
    → IsStrict opts
    → new_repository s opts ≡ ok r
    → IsSpelledOut s (repository_name r)
new_repository-strict s opts r st h = rw name_eq (
    subst (λ x. IsSpelledOut x (resolved reg default ++ b'/' ∷ path))
      (sym (strict-registry s (cut s b'/') refl not_empty))
      (resolved-spelled reg path default not_empty))
  where
    reg : Str
    reg = (registry_part s (cut s b'/')).0

    path : Str
    path = (registry_part s (cut s b'/')).1

    default : Str
    default = (make_options opts).default_registry

    origin : Origin s reg path opts r
    origin = new_repository-eq-ok s opts r h

    accepted : Accepted reg opts r.registry
    accepted = new_registry-eq-ok reg opts r.registry origin.made

    not_empty : is_empty reg ≡ false
    not_empty = explicit_registry reg opts r.registry st accepted

    domain : r.registry.registry ≡ resolved reg default
    domain = ap (λ x. x.registry) accepted.value

    explicit : has_implicit_namespace r.repository r.registry ≡ false
    explicit = rw origin.kept (strict_namespace path opts r.registry st origin.namespace)

    name_eq : repository_name r ≡ resolved reg default ++ b'/' ∷ path
    name_eq =
        repository_name-append r (rw domain (resolved-not-empty reg default not_empty))
        ∙ ap₂ (λ d p. d ++ b'/' ∷ p) domain (repository_str-explicit r explicit ∙ origin.kept)

IsSpelledOut-tag :
    (s name tag : Str) → IsSpelledOut s name → IsSpelledOut (s ++ b':' ∷ tag) (name ++ b':' ∷ tag)
IsSpelledOut-tag s name tag (inl e) = inl (ap (λ n. n ++ b':' ∷ tag) e)
IsSpelledOut-tag s name tag (inr (rest, e, f)) =
    inr (rest ++ b':' ∷ tag, ap (λ n. n ++ b':' ∷ tag) e, ap (λ n. n ++ b':' ∷ tag) f)

no_empty_tag : IsTagStr [] → ⊥
no_empty_tag v = omega (arith, v.not_empty)

strict_or :
    (tag : Str) (opts : List NameOption)
    → IsStrict opts
    → (not (is_empty tag) || (make_options opts).strict) ≡ true
strict_or tag opts st = ground arith

not_empty_kept :
    (tag default : Str) → 1 ≤ length tag → (if is_empty tag then default else tag) ≡ tag
not_empty_kept [] default h = absurd (omega arith)
not_empty_kept (x ∷ tag) default h = refl

-- Under strict validation, whatever the defaults are, an accepted string is the full name of its
-- tag, except that the registry docker.io is written index.docker.io.
pub new_tag-strict :
    (s : Str) (opts : List NameOption) (t : Tag)
    → IsStrict opts
    → new_tag s opts ≡ ok t
    → IsSpelledOut s (tag_name t)
new_tag-strict s opts t st h = elim (tag_part-cases s) [
  | inl whole ↦ absurd (no_empty_tag (rw (ap (λ p. p.1) whole) at strict_tag))
  | inr cut_off ↦
      subst (λ x. IsSpelledOut x (tag_name t)) (sym cut_off.0)
        (subst (λ n. IsSpelledOut ((tag_part s).0 ++ b':' ∷ (tag_part s).1) n) (sym name_eq)
          (IsSpelledOut-tag (tag_part s).0 (repository_name t.repository) (tag_part s).1
            (new_repository-strict (tag_part s).0 opts t.repository st origin.repository)))
]
  where
    origin : TagOrigin s (tag_part s).0 (tag_part s).1 opts t
    origin = new_tag-eq-ok s opts t h

    strict_tag : IsTagStr (tag_part s).1
    strict_tag = check_tag-eq-ok (tag_part s).1 (origin.checked (strict_or (tag_part s).1 opts st))

    kept : t.tag ≡ (tag_part s).1
    kept =
        origin.kept
        ∙ not_empty_kept (tag_part s).1 (make_options opts).default_tag strict_tag.not_empty

    name_eq : tag_name t ≡ repository_name t.repository ++ b':' ∷ (tag_part s).1
    name_eq = unfold tag_name in ap (λ x. repository_name t.repository ++ b':' ∷ x) kept
