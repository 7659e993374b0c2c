-- ===== src/Name/Digest/Reparse.antt =====
-- What `NewDigest` accepts, and that the name of a digest is parsed back to the same name.
use go_containerregistry.Prelude.{
  ◌==◌, ℕ, ◌≤◌, ◌≡◌, refl, sym, ap, ◌∙◌, false, List, [], ◌∷◌, ◌++◌, Str, codes, contains,
  contains-append, split, split-append, split-lacks, length, ok, arith,
}
use go_containerregistry.Name.Options.{NameOption, make_options}
use go_containerregistry.Name.Check.Accepts.{IsOver, IsOver-lacks, check_element_iff}
use go_containerregistry.Name.Registry.Accepts.{is_authority-lacks}
use go_containerregistry.Name.Repository.{
  Repository, repository_chars, repository_str, repository_name, new_repository,
}
use go_containerregistry.Name.Repository.Reparse.{
  HasDefaultRegistry, IsParsed, at_no_host_byte, domain-not-empty, spelled_out, new_repository-name,
  repository_name-spelled, new_repository-IsParsed, check_repository-eq-ok, repository_name-append,
}
use go_containerregistry.Name.Tag.{tag_part, new_tag}
use go_containerregistry.Name.Tag.Parts.{tag_part-path}
use go_containerregistry.Name.Digest.{
  Digest, digest_chars, digest_name, check_digest, digest_base, digest_parts, new_digest,
}

pub record IsDigestStr (digest : Str) : Type 0 where
  pub over : IsOver digest_chars digest
  pub size : length digest ≡ 71

pub check_digest-eq-ok : (digest : Str) → check_digest digest ≡ ok tt → IsDigestStr digest
unfolding check_digest
check_digest-eq-ok digest h =
    let parts = (check_element_iff (codes "digest") digest digest_chars 71 71 (omega arith)).0 h in
    record { over = parts.0; size = omega arith }

pub record DigestOrigin (s : Str) (opts : List NameOption) (d : Digest) : Type 0 where
  pub base : Str
  pub parts : split s b'@' ≡ base ∷ d.digest ∷ []
  pub checked : check_digest d.digest ≡ ok tt
  pub repository : new_repository (digest_base base (new_tag base opts)) opts ≡ ok d.repository
  pub original : d.original ≡ s

digest_parts-two :
    (s base digest : Str) (opts : List NameOption) (d : Digest)
    → digest_parts s opts (base ∷ digest ∷ []) ≡ ok d
    → (d.digest ≡ digest)
      × (check_digest digest ≡ ok tt)
      × (new_repository (digest_base base (new_tag base opts)) opts ≡ ok d.repository)
      × (d.original ≡ s)
unfolding digest_parts
digest_parts-two s base digest opts d h = ground arith

origin_of_parts :
    (s : Str) (opts : List NameOption) (d : Digest) (ps : List Str)
    → split s b'@' ≡ ps
    → digest_parts s opts ps ≡ ok d
    → DigestOrigin s opts d
unfolding digest_parts
origin_of_parts s opts d [] e h = cc
origin_of_parts s opts d (base ∷ []) e h = cc
origin_of_parts s opts d (base ∷ digest ∷ []) e h =
    let q = digest_parts-two s base digest opts d h in
    record {
      base = base;
      parts = e ∙ ap (λ t. base ∷ t ∷ []) (sym q.0);
      checked = rw q.0 q.1;
      repository = q.2;
      original = q.3;
    }
origin_of_parts s opts d (p ∷ q ∷ r ∷ ps) e h = cc

pub new_digest-eq-ok :
    (s : Str) (opts : List NameOption) (d : Digest)
    → new_digest s opts ≡ ok d
    → DigestOrigin s opts d
unfolding new_digest
new_digest-eq-ok s opts d h = origin_of_parts s opts d (split s b'@') refl h

at_no_digest_char : contains digest_chars b'@' ≡ false
unfolding contains
at_no_digest_char = refl

pub at_no_repository_char : contains repository_chars b'@' ≡ false
unfolding contains
at_no_repository_char = refl

colon_no_repository_char : contains repository_chars b':' ≡ false
unfolding contains
colon_no_repository_char = refl

pub at_lacks_append :
    (a b : Str) (c x : ℕ)
    → (c == x) ≡ false
    → contains a x ≡ false
    → contains b x ≡ false
    → contains (a ++ c ∷ b) x ≡ false
at_lacks_append a b c x n ha hb = rw (contains-append, ha) (unfold contains in rw (n, hb))

module _ (r : Repository) (p : IsParsed r) where
  path-IsOver : IsOver repository_chars (repository_str r)
  path-IsOver = (check_repository-eq-ok (repository_str r) p.path).0

  name_parts : repository_name r ≡ r.registry.registry ++ b'/' ∷ repository_str r
  name_parts = repository_name-append r (domain-not-empty r.registry.registry p.domain.domain)

  repository_name-lacks_at : contains (repository_name r) b'@' ≡ false
  repository_name-lacks_at = rw name_parts (
      at_lacks_append r.registry.registry (repository_str r) b'/' b'@' refl
        (is_authority-lacks r.registry.registry b'@' at_no_host_byte p.domain.authority)
        (IsOver-lacks repository_chars (repository_str r) b'@' at_no_repository_char path-IsOver))

  tag_part-repository_name : tag_part (repository_name r) ≡ (repository_name r, [])
  tag_part-repository_name = rw name_parts (
      tag_part-path r.registry.registry (repository_str r) (
        IsOver-lacks repository_chars (repository_str r) b':' colon_no_repository_char path-IsOver))

-- the base of a digest that has no tag is its repository's name, whether or not `NewTag` took it
digest_base-name :
    (r : Repository) (opts : List NameOption)
    → IsParsed r
    → digest_base (repository_name r) (new_tag (repository_name r) opts) ≡ repository_name r
unfolding digest_base new_tag
digest_base-name r opts p =
    rw (tag_part-repository_name r p, new_repository-name r opts p)
      (ground (arith, repository_name-spelled r (make_options opts).insecure))

digest_parts-pieces :
    (s base digest : Str) (opts : List NameOption) (r : Repository)
    → check_digest digest ≡ ok tt
    → new_repository (digest_base base (new_tag base opts)) opts ≡ ok r
    → digest_parts s opts (base ∷ digest ∷ [])
      ≡ ok (record { repository = r; digest = digest; original = s })
unfolding digest_parts
digest_parts-pieces s base digest opts r c n = rw (c, n)

abbrev pub spelled_out_digest : Digest → List NameOption → Digest
spelled_out_digest d opts = record {
  repository = spelled_out d.repository (make_options opts).insecure;
  digest = d.digest;
  original = digest_name d;
}

digest_name-split :
    (d : Digest)
    → IsParsed d.repository
    → IsDigestStr d.digest
    → split (digest_name d) b'@' ≡ repository_name d.repository ∷ d.digest ∷ []
unfolding digest_name
digest_name-split d p v = rw (
  split-append (repository_name d.repository) d.digest b'@'
      (IsOver-lacks digest_chars d.digest b'@' at_no_digest_char v.over),
  split-lacks (repository_name d.repository) b'@' (repository_name-lacks_at d.repository p),
)

digest_name-spelled :
    (d : Digest) (opts : List NameOption) → digest_name (spelled_out_digest d opts) ≡ digest_name d
unfolding digest_name
digest_name-spelled d opts =
    ap (λ n. n ++ b'@' ∷ d.digest)
      (repository_name-spelled d.repository (make_options opts).insecure)

digest_name-reparsed :
    (d : Digest) (opts : List NameOption)
    → IsParsed d.repository
    → check_digest d.digest ≡ ok tt
    → new_digest (digest_name d) opts ≡ ok (spelled_out_digest d opts)
unfolding new_digest
digest_name-reparsed d opts p c = rw (digest_name-split d p (check_digest-eq-ok d.digest c)) (
    digest_parts-pieces (digest_name d) (repository_name d.repository) d.digest opts _ c
      (rw (digest_base-name d.repository opts p) (new_repository-name d.repository opts p)))

-- With the default registry, the name of a parsed digest whose path with its namespace has at
-- most 255 bytes is parsed again: to the same registry, path and digest, under the same name.
pub new_digest-digest_name :
    (s : Str) (opts : List NameOption) (d : Digest)
    → HasDefaultRegistry opts
    → new_digest s opts ≡ ok d
    → length (repository_str d.repository) ≤ 255
    → (new_digest (digest_name d) opts ≡ ok (spelled_out_digest d opts))
      × (digest_name (spelled_out_digest d opts) ≡ digest_name d)
new_digest-digest_name s opts d dr h n =
    let o = new_digest-eq-ok s opts d h in
    (
      digest_name-reparsed d opts (new_repository-IsParsed _ opts d.repository dr o.repository n)
          o.checked,
      digest_name-spelled d opts,
    )
