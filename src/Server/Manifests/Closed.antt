-- ===== src/Server/Manifests/Closed.antt =====
-- The manifests of every stored index are stored in its repository.
use go_containerregistry.Prelude.{
  ℕ, ◌≡◌, refl, sym, ap, ◌∙◌, subst, true, false, List, [], ◌∷◌, All, Option, none, some,
  some_injective, Str, codes, str_eq, str_eq_iff, StrMap, put, length, ltb, Bool-cases,
  Option-cases, inl, inr, arith,
}
use go_containerregistry.Hash.{Hash, hash_string}
use go_containerregistry.Server.Http.{Request, RegError, Outcome, fail}
use go_containerregistry.Server.Blobs.{content_digest, created, path_elems}
use go_containerregistry.Server.Manifests.{
  Manifest, Manifests, no_manifests, or_new, is_missing, is_index_type, first_missing, index_error,
  check_index, put_manifest, handle_manifests,
}
use go_containerregistry.Server.Manifests.Retrieval.{
  stored, put_manifest-created, put_manifest-refused,
}

-- Only a PUT may change the store.
module _ {κ} (P : Outcome × Manifests → Type κ) (sum : List ℕ → List ℕ)
    (parse_index : List ℕ → Option (List Hash)) (ms : Manifests) (req : Request)
    (same : (out : Outcome) → P (out, ms))
    (put_holds : (repo target : Str) → P (put_manifest sum parse_index ms req repo target)) where
  handle_manifests_rule : P (handle_manifests sum parse_index ms req)
  unfolding handle_manifests
  handle_manifests_rule = elim (Bool-cases (ltb (length (path_elems req.path)) 3)) [
    | inl e ↦ rw e (same _)
    | inr e ↦ rw e (elim (Bool-cases (str_eq req.method (codes "GET"))) [
      | inl g ↦ rw g (same _)
      | inr g ↦ rw g (elim (Bool-cases (str_eq req.method (codes "HEAD"))) [
        | inl d ↦ rw d (same _)
        | inr d ↦ rw d (elim (Bool-cases (str_eq req.method (codes "PUT"))) [
          | inl p ↦ rw p (put_holds _ _)
          | inr p ↦ rw p (same _)
        ])
      ])
    ])
  ]

-- The repository has a manifest under the key.
abbrev pub IsPresent : StrMap Manifest → Str → Type 0
IsPresent c k = (m : Manifest) × (c k ≡ some m)

put-IsPresent :
    (c : StrMap Manifest) (j k : Str) (m : Manifest) → IsPresent c k → IsPresent (put c j m) k
put-IsPresent c j k m (n, h) = elim (Bool-cases (str_eq j k)) [
  | inl e ↦ (m, rw e)
  | inr e ↦ (n, rw e h)
]

All-map : {P Q : Hash → Type 0} (ds : List Hash) → ((d : Hash) → P d → Q d) → All P ds → All Q ds
All-map [] f h = tt
All-map (d ∷ ds) f h = (f d h.0, All-map ds f h.1)

is_missing-IsPresent : (c : StrMap Manifest) (k : Str) → is_missing (c k) ≡ false → IsPresent c k
unfolding is_missing
is_missing-IsPresent c k h = ground arith

first_missing-none :
    (c : StrMap Manifest) (ds : List Hash)
    → first_missing c ds ≡ none
    → All (λ d. IsPresent c (hash_string d)) ds
unfolding first_missing
first_missing-none c [] h = tt
first_missing-none c (d ∷ ds) h =
    (is_missing-IsPresent c (hash_string d) (ground arith), first_missing-none c ds (ground arith))

module _ (parse_index : List ℕ → Option (List Hash)) where
  -- An index can be parsed, and all that it lists is in the repository.
  pub record IsComplete (c : StrMap Manifest) (m : Manifest) : Type 0 where
    pub children : List Hash
    pub parsed : parse_index m.blob ≡ some children
    pub present : All (λ d. IsPresent c (hash_string d)) children

  -- Every index of the repository is complete.
  abbrev pub IsClosedRepo : StrMap Manifest → Type 0
  IsClosedRepo c =
      (k : Str) (m : Manifest) → c k ≡ some m → is_index_type m.content_type ≡ true → IsComplete c m

  pub record IsClosed (ms : Manifests) : Type 0 where
    pub at : (repo : Str) (c : StrMap Manifest) → ms repo ≡ some c → IsClosedRepo c

  pub no_manifests-IsClosed : IsClosed no_manifests
  no_manifests-IsClosed = record { at = λ repo c e. cc }

  IsComplete-put :
      (c : StrMap Manifest) (j : Str) (n m : Manifest) → IsComplete c m → IsComplete (put c j n) m
  IsComplete-put c j n m v = record {
    children = v.children;
    parsed = v.parsed;
    present = All-map v.children (λ d. put-IsPresent c j (hash_string d) n) v.present;
  }

  IsClosedRepo-put :
      (c : StrMap Manifest) (j : Str) (n : Manifest)
      → IsClosedRepo c
      → (is_index_type n.content_type ≡ true → IsComplete c n)
      → IsClosedRepo (put c j n)
  IsClosedRepo-put c j n h new k m e t = elim (Bool-cases (str_eq j k)) [
    | inl q ↦
        let same : n ≡ m = some_injective (rw q at e) in
        IsComplete-put c j n m (subst (IsComplete c) same (new (rw same t)))
    | inr q ↦ IsComplete-put c j n m (h k m (rw q at e) t)
  ]

  index_error-IsComplete :
      (c : StrMap Manifest) (m : Manifest) (o : Option (List Hash))
      → parse_index m.blob ≡ o
      → index_error c o ≡ none
      → IsComplete c m
  unfolding index_error
  index_error-IsComplete c m none e h = cc
  index_error-IsComplete c m (some ds) e h = record {
    children = ds;
    parsed = e;
    present = first_missing-none c ds (ground arith);
  }

  check_index-type :
      (c : StrMap Manifest) (m : Manifest)
      → is_index_type m.content_type ≡ true
      → check_index parse_index c m ≡ index_error c (parse_index m.blob)
  unfolding check_index
  check_index-type c m t = rw t

  check_index-IsComplete :
      (c : StrMap Manifest) (m : Manifest)
      → check_index parse_index c m ≡ none
      → is_index_type m.content_type ≡ true
      → IsComplete c m
  check_index-IsComplete c m h t =
      index_error-IsComplete c m (parse_index m.blob) refl (sym (check_index-type c m t) ∙ h)

  or_new-IsClosedRepo :
      (ms : Manifests) (repo : Str) → IsClosed ms → IsClosedRepo (or_new (ms repo))
  or_new-IsClosedRepo ms repo h = at_repo (ms repo) refl
    where
      at_repo : (o : Option (StrMap Manifest)) → ms repo ≡ o → IsClosedRepo (or_new o)
      at_repo none e = λ k m f t. cc
      at_repo (some c) e = h.at repo c e

  IsClosed-put :
      (ms : Manifests) (repo : Str) (c : StrMap Manifest)
      → IsClosed ms
      → IsClosedRepo c
      → IsClosed (put ms repo c)
  IsClosed-put ms repo c h new = record {
    at = λ r d e. elim (Bool-cases (str_eq repo r)) [
      | inl q ↦ subst IsClosedRepo (some_injective (rw q at e)) new
      | inr q ↦ h.at r d (rw q at e)
    ];
  }

  put_manifest-IsClosed :
      (sum : List ℕ → List ℕ) (ms : Manifests) (req : Request) (repo target : Str)
      → IsClosed ms
      → IsClosed (put_manifest sum parse_index ms req repo target).1
  put_manifest-IsClosed sum ms req repo target h =
      let c = or_new (ms repo) in
      let old = or_new-IsClosedRepo ms repo h in
      elim (Option-cases (check_index parse_index c (stored req))) [
        | inl passed ↦
            let complete = check_index-IsComplete c (stored req) passed in
            rw (put_manifest-created sum parse_index ms req repo target passed) (
              IsClosed-put ms repo _ h (
                IsClosedRepo-put _ _ (stored req)
                  (IsClosedRepo-put c target (stored req) old complete)
                  (λ t. IsComplete-put c target (stored req) (stored req) (complete t))))
        | inr (e, failed) ↦
            rw (put_manifest-refused sum parse_index ms req repo target e failed)
              (IsClosed-put ms repo c h old)
      ]

  -- Every request to the store of manifests, accepted or not, keeps the manifests of every stored
  -- index in its repository.
  pub handle_manifests-IsClosed :
      (sum : List ℕ → List ℕ) (ms : Manifests) (req : Request)
      → IsClosed ms
      → IsClosed (handle_manifests sum parse_index ms req).1
  handle_manifests-IsClosed sum ms req h =
      handle_manifests_rule (λ p. IsClosed p.1) sum parse_index ms req (λ out. h)
        (λ repo target. put_manifest-IsClosed sum ms req repo target h)

-- The same manifests under the same keys; a repository with no manifest counts as none.
abbrev pub SameManifests : Manifests → Manifests → Type 0
SameManifests ms ns = (repo k : Str) → or_new (ns repo) k ≡ or_new (ms repo) k

put-SameManifests :
    (ms : Manifests) (repo : Str) → SameManifests ms (put ms repo (or_new (ms repo)))
put-SameManifests ms repo r k = elim (Bool-cases (str_eq repo r)) [
  | inl e ↦ rw e (ap (λ x. or_new (ms x) k) ((str_eq_iff repo r).0 e))
  | inr e ↦ rw e
]

module _ (parse_index : List ℕ → Option (List Hash)) (sum : List ℕ → List ℕ) where
  put_manifest-error :
      (ms : Manifests) (req : Request) (repo target : Str) (e : RegError)
      → (put_manifest sum parse_index ms req repo target).0 ≡ fail e
      → SameManifests ms (put_manifest sum parse_index ms req repo target).1
  put_manifest-error ms req repo target e h =
      elim (Option-cases (check_index parse_index (or_new (ms repo)) (stored req))) [
        | inl passed ↦ absurd (
            created_no_error
              (rw (put_manifest-created sum parse_index ms req repo target passed) at h))
        | inr (x, failed) ↦
            rw (put_manifest-refused sum parse_index ms req repo target x failed)
              (put-SameManifests ms repo)
      ]
    where
      created_no_error : created (content_digest sum req.body) ≡ fail e → ⊥
      created_no_error q = cc

  pub handle_manifests-error :
      (ms : Manifests) (req : Request) (e : RegError)
      → (handle_manifests sum parse_index ms req).0 ≡ fail e
      → SameManifests ms (handle_manifests sum parse_index ms req).1
  handle_manifests-error ms req e =
      handle_manifests_rule (λ p. p.0 ≡ fail e → SameManifests ms p.1) sum parse_index ms req
        (λ out h repo k. refl) (λ repo target. put_manifest-error ms req repo target e)
