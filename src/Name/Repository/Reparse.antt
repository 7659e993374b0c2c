-- ===== src/Name/Repository/Reparse.antt =====
-- The name of a repository is parsed back to a repository of the same name.
use go_containerregistry.Prelude.{
  All-append, ◌≤◌, ◌≡◌, refl, ap, Bool, true, false, ◌&&◌, ◌||◌, not, List, [], ◌∷◌, ◌++◌, Option,
  none, some, Str, codes, contains, is_empty, str_eq, length, cut, cut-append, Bool-cases, ◌⊎◌, inl,
  inr, if◌then◌else◌, ok, arith,
}
use go_containerregistry.Name.Options.{
  NameOption, make_options, default_registry_name, default_registry_alias,
}
use go_containerregistry.Name.Check.Accepts.{IsOver, check_element_iff}
use go_containerregistry.Name.Registry.{Registry, is_authority, is_host_byte, new_registry}
use go_containerregistry.Name.Registry.Accepts.{
  Accepted, resolved, is_authority-lacks, new_registry-eq-ok, new_registry_self,
}
use go_containerregistry.Name.Repository.{
  Repository, repository_chars, default_namespace, has_implicit_namespace, repository_str,
  repository_name, check_repository, registry_part, new_repository,
}

-- What a parsed path satisfies: 2 to 255 bytes, each of them allowed.
pub check_repository-eq-ok :
    (s : Str)
    → check_repository s ≡ ok tt
    → IsOver repository_chars s × (2 ≤ length s) × (length s ≤ 255)
unfolding check_repository
check_repository-eq-ok s h =
    (check_element_iff (codes "repository") s repository_chars 2 255 (omega arith)).0 h

pub check_repository-IsOver :
    (s : Str)
    → IsOver repository_chars s
    → 2 ≤ length s
    → length s ≤ 255
    → check_repository s ≡ ok tt
unfolding check_repository
check_repository-IsOver s o l u =
    (check_element_iff (codes "repository") s repository_chars 2 255 (omega arith)).1 (o, l, u)

-- A registry as the parsers make it, when the defaults are not overridden.
pub record IsDomain (reg : Str) : Type 0 where
  pub authority : is_authority reg ≡ true
  pub domain : (contains reg b'.' || contains reg b':') ≡ true
  pub not_alias : str_eq reg default_registry_alias ≡ false

pub default-IsDomain : IsDomain default_registry_name
unfolding is_authority contains str_eq
default-IsDomain = record { authority = refl; domain = refl; not_alias = refl }

resolved-nil : resolved [] default_registry_name ≡ default_registry_name
unfolding str_eq
resolved-nil = refl

pub resolved-IsDomain :
    (s : Str)
    → is_authority s ≡ true
    → (is_empty s ≡ true) ⊎ ((contains s b'.' || contains s b':') ≡ true)
    → IsDomain (resolved s default_registry_name)
resolved-IsDomain [] a h = rw resolved-nil default-IsDomain
resolved-IsDomain (c ∷ s) a (inl e) = cc
resolved-IsDomain (c ∷ s) a (inr d) = elim (Bool-cases (str_eq (c ∷ s) default_registry_alias)) [
  | inl e ↦ rw e default-IsDomain
  | inr e ↦ rw e (record { authority = a; domain = d; not_alias = e })
]

-- A repository that its own name can be parsed to.
pub record IsParsed (r : Repository) : Type 0 where
  pub domain : IsDomain r.registry.registry
  pub path : check_repository (repository_str r) ≡ ok tt

-- The options leave the default registry as it is.
abbrev pub HasDefaultRegistry : List NameOption → Type 0
HasDefaultRegistry opts = (make_options opts).default_registry ≡ default_registry_name

pub domain-not-empty :
    (reg : Str) → (contains reg b'.' || contains reg b':') ≡ true → is_empty reg ≡ false
unfolding contains
domain-not-empty [] h = cc
domain-not-empty (c ∷ s) h = refl

slash_no_host_byte : is_host_byte b'/' ≡ false
unfolding is_host_byte contains
slash_no_host_byte = refl

pub at_no_host_byte : is_host_byte b'@' ≡ false
unfolding is_host_byte contains
at_no_host_byte = refl

pub IsDomain-lacks_slash : {reg : Str} → IsDomain reg → contains reg b'/' ≡ false
IsDomain-lacks_slash {reg} d = is_authority-lacks reg b'/' slash_no_host_byte d.authority

pub repository_name-append :
    (r : Repository)
    → is_empty r.registry.registry ≡ false
    → repository_name r ≡ r.registry.registry ++ b'/' ∷ repository_str r
unfolding repository_name
repository_name-append r h = rw h

repository_str-implicit :
    (r : Repository)
    → has_implicit_namespace r.repository r.registry ≡ true
    → repository_str r ≡ default_namespace ++ b'/' ∷ r.repository
unfolding repository_str
repository_str-implicit r h = ground arith

pub repository_str-explicit :
    (r : Repository)
    → has_implicit_namespace r.repository r.registry ≡ false
    → repository_str r ≡ r.repository
unfolding repository_str
repository_str-explicit r h = ground arith

library_no_implicit :
    (repo : Str) (reg : Registry)
    → has_implicit_namespace (default_namespace ++ b'/' ∷ repo) reg ≡ false
unfolding has_implicit_namespace contains
library_no_implicit repo reg = refl

-- the path, as `RepositoryStr` writes it, has its namespace
no_implicit_namespace :
    (r : Repository) → has_implicit_namespace (repository_str r) r.registry ≡ false
no_implicit_namespace r = elim (Bool-cases (has_implicit_namespace r.repository r.registry)) [
  | inl e ↦ rw (repository_str-implicit r e) (library_no_implicit r.repository r.registry)
  | inr e ↦ rw (repository_str-explicit r e) e
]

-- the test reads only the name of the registry
no_implicit_namespace_at :
    (r : Repository) (b : Bool)
    → has_implicit_namespace
        (repository_str r)
        (record { insecure = b; registry = r.registry.registry })
      ≡ false
no_implicit_namespace_at r b = unfold has_implicit_namespace in no_implicit_namespace r

-- the pieces that `NewRepository` puts together
new_repository-pieces :
    (name registry repo : Str) (opts : List NameOption) (reg : Registry)
    → is_empty name ≡ false
    → registry_part name (cut name b'/') ≡ (registry, repo)
    → check_repository repo ≡ ok tt
    → new_registry registry opts ≡ ok reg
    → has_implicit_namespace repo reg ≡ false
    → new_repository name opts ≡ ok (record { registry = reg; repository = repo })
unfolding new_repository
new_repository-pieces name registry repo opts reg e p c n i = rw (e, p, c, n, i)

append-not-empty : (s t : Str) → is_empty (s ++ b'/' ∷ t) ≡ false
append-not-empty [] t = refl
append-not-empty (c ∷ s) t = refl

registry_part-domain :
    (s reg path : Str)
    → (contains reg b'.' || contains reg b':') ≡ true
    → registry_part s (some (reg, path)) ≡ (reg, path)
unfolding registry_part
registry_part-domain s reg path h = rw h

abbrev name_with : Str → Str → Str
name_with reg path = if not (is_empty reg) then reg ++ b'/' ∷ path else path

-- the repository that a parse of a repository's name gives
abbrev pub spelled_out : Repository → Bool → Repository
spelled_out r b = record {
  registry = record { insecure = b; registry = r.registry.registry };
  repository = repository_str r;
}

-- From the name of a parsed repository `NewRepository` makes a repository of the same registry,
-- whose path is spelled out.
pub new_repository-name :
    (r : Repository) (opts : List NameOption)
    → IsParsed r
    → new_repository (repository_name r) opts ≡ ok (spelled_out r (make_options opts).insecure)
new_repository-name r opts v =
    let reg = r.registry.registry in
    let path = repository_str r in
    let not_empty = domain-not-empty reg v.domain.domain in
    rw (repository_name-append r not_empty) (
      new_repository-pieces (reg ++ b'/' ∷ path) reg path opts _ (append-not-empty reg path)
        (rw (cut-append reg path b'/' (IsDomain-lacks_slash v.domain))
          (registry_part-domain _ reg path v.domain.domain))
        v.path (new_registry_self reg opts v.domain.authority not_empty v.domain.not_alias)
        (no_implicit_namespace_at r _))

-- That repository has the same name.
pub repository_name-spelled :
    (r : Repository) (b : Bool) → repository_name (spelled_out r b) ≡ repository_name r
unfolding repository_name
repository_name-spelled r b =
    ap (name_with r.registry.registry)
      (repository_str-explicit (spelled_out r b) (no_implicit_namespace_at r b))

-- What a successful `NewRepository` went through: the two parts of the name, and their tests.
pub record Origin (s registry repo : Str) (opts : List NameOption) (r : Repository) : Type 0 where
  pub parts : registry_part s (cut s b'/') ≡ (registry, repo)
  pub path : check_repository repo ≡ ok tt
  pub made : new_registry registry opts ≡ ok r.registry
  pub kept : r.repository ≡ repo
  pub namespace : has_implicit_namespace repo r.registry && (make_options opts).strict ≡ false

Origin-pieces :
    (s registry repo : Str) (opts : List NameOption) (r : Repository)
    → registry_part s (cut s b'/') ≡ (registry, repo)
    → new_repository s opts ≡ ok r
    → Origin s registry repo opts r
unfolding new_repository
Origin-pieces s registry repo opts r p h = ground arith

pub new_repository-eq-ok :
    (s : Str) (opts : List NameOption) (r : Repository)
    → new_repository s opts ≡ ok r
    → Origin s (registry_part s (cut s b'/')).0 (registry_part s (cut s b'/')).1 opts r
new_repository-eq-ok s opts r h = Origin-pieces s _ _ opts r refl h

-- The registry part is empty, or it has a dot or a colon.
registry_part-domain? :
    (s : Str) (o : Option (Str × Str))
    → (is_empty (registry_part s o).0 ≡ true)
      ⊎ ((contains (registry_part s o).0 b'.' || contains (registry_part s o).0 b':') ≡ true)
unfolding registry_part
registry_part-domain? s none = inl refl
registry_part-domain? s (some (first, rest)) =
    elim (Bool-cases (contains first b'.' || contains first b':')) [
      | inl e ↦ rw e (inr e)
      | inr e ↦ rw e (inl refl)
    ]

resolved_registry :
    (s : Str) (opts : List NameOption) (r : Registry)
    → HasDefaultRegistry opts
    → Accepted s opts r
    → r.registry ≡ resolved s default_registry_name
resolved_registry s opts r d a = rw (a.value, d)

library_bytes : IsOver repository_chars (codes "library/")
unfolding contains
library_bytes = (refl, (refl, (refl, (refl, (refl, (refl, (refl, (refl, tt))))))))

library_path :
    (repo : Str)
    → check_repository repo ≡ ok tt
    → length (default_namespace ++ b'/' ∷ repo) ≤ 255
    → check_repository (default_namespace ++ b'/' ∷ repo) ≡ ok tt
library_path repo h n =
    let parts = check_repository-eq-ok repo h in
    check_repository-IsOver (default_namespace ++ b'/' ∷ repo) (library_over (parts.0))
      (omega arith) n
  where
    library_over :
        IsOver repository_chars repo → IsOver repository_chars (default_namespace ++ b'/' ∷ repo)
    library_over o =
        All-append (λ c. contains repository_chars c ≡ true) (codes "library/") repo library_bytes o

repository_str-path :
    (r : Repository)
    → check_repository r.repository ≡ ok tt
    → length (repository_str r) ≤ 255
    → check_repository (repository_str r) ≡ ok tt
repository_str-path r c n = elim (Bool-cases (has_implicit_namespace r.repository r.registry)) [
  | inl e ↦
      rw (repository_str-implicit r e)
        (library_path r.repository c (rw (repository_str-implicit r e) at n))
  | inr e ↦ rw (repository_str-explicit r e) c
]

-- The name of every repository that is parsed with the default registry, and whose path with its
-- namespace has at most 255 bytes, can be parsed again.
pub new_repository-IsParsed :
    (s : Str) (opts : List NameOption) (r : Repository)
    → HasDefaultRegistry opts
    → new_repository s opts ≡ ok r
    → length (repository_str r) ≤ 255
    → IsParsed r
new_repository-IsParsed s opts r d h n = record {
  domain =
      rw (resolved_registry _ opts r.registry d accepted)
        (resolved-IsDomain _ accepted.authority (registry_part-domain? s (cut s b'/')));
  path = repository_str-path r (rw origin.kept origin.path) n;
}
  where
    origin : Origin s (registry_part s (cut s b'/')).0 (registry_part s (cut s b'/')).1 opts r
    origin = new_repository-eq-ok s opts r h

    accepted : Accepted (registry_part s (cut s b'/')).0 opts r.registry
    accepted = new_registry-eq-ok _ opts r.registry origin.made
