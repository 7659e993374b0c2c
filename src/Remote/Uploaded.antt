-- ===== src/Remote/Uploaded.antt =====
-- uploadOne of pkg/v1/remote/write.go against the registry of pkg/registry.
use go_containerregistry.Prelude.{
  ℕ, zero, suc, ◌+◌, ◌<◌, ◌≡◌, ◌≢◌, ◌⊎◌, inl, inr, refl, sym, ap, ◌∙◌, Bool, true, false, List, [],
  ◌∷◌, ◌++◌, append-nil, All, All-append, join, codes, Option, none, some, Str, str_eq, str_eq_refl,
  str_eq→eq, Bool-cases, arith, put, Result, ok,
}
use go_containerregistry.Hash.{Hash, hash_string}
use go_containerregistry.Platform.Descriptors.{MediaType}
use go_containerregistry.Partial.Objects.{Fault, Layer}
use go_containerregistry.Transport.Errors.{Diagnostic}
use go_containerregistry.Retry.Wait.{Floats}
use go_containerregistry.Retry.Attempts.{returned, retry, is_temporary}
use go_containerregistry.Retry.Bounded.{after, outcome, retry-EndsAt}
use go_containerregistry.Server.Http.{RegError, decimal}
use go_containerregistry.Server.Paths.Plain.{
  IsPlain, IsUnreserved, decimal-IsPlain, decimal-IsUnreserved,
}
use go_containerregistry.Server.Blobs.{content_digest, or_empty}
use go_containerregistry.Remote.Act.{Act, step-ok, ◌>>=◌}
use go_containerregistry.Remote.Writer.{
  Url, Sent, Received, WriteError, layer_result, check_existing_blob, initiate_upload, stream_blob,
  commit_blob, stream_and_commit, try_upload, attempted, attempt, retried, mount_from,
  upload_backoff, try_three_times, unless_existing, upload_digest, upload_one,
}
use go_containerregistry.Remote.Server.{Site}
use go_containerregistry.Remote.Routed.{
  repo, upload_path, upload_path-join, whole_path, whole_path-IsPlain,
}
use go_containerregistry.Remote.Exchanged.{
  root_url, net, next_site, streamed, committed, initiate_upload-net, stream_blob-net,
  commit_blob-net, exists-missing, exists-stored,
}

-- Where the first attempt succeeds, Retry returns no error and the world that it left.
retry-first :
    {F E S : Type 0} (floats : Floats F) (draws : ℕ → F) (f : S → Option E × S)
    (is_deadline : E → Bool) (has_temporary : E → Option Bool) (factor jitter : F) (s s' : S)
    → f s ≡ (none, s')
    → retry floats draws
        (some f)
        (some (is_temporary is_deadline has_temporary))
        (upload_backoff factor jitter)
        s
      ≡ (returned none, s')
unfolding is_temporary after
retry-first floats draws f is_deadline has_temporary factor jitter s s' h = shown (
    retry-EndsAt floats draws f (is_temporary is_deadline has_temporary)
      (upload_backoff factor jitter) s (omega arith))
  where
    shown :
        (k : ℕ) × (k < 3)
          × (retry floats draws
                (some f)
                (some (is_temporary is_deadline has_temporary))
                (upload_backoff factor jitter)
                s
              ≡ (returned (outcome f k s), after f (suc k) s))
          × ((j : ℕ) → j < k → is_temporary is_deadline has_temporary (outcome f j s) ≡ true)
          × ((is_temporary is_deadline has_temporary (outcome f k s) ≡ false)
              ⊎ (suc k ≡ 3)
              ⊎ (0 < 0))
        → retry floats draws
            (some f)
            (some (is_temporary is_deadline has_temporary))
            (upload_backoff factor jitter)
            s
          ≡ (returned none, s')
    shown (zero, lt, e, before, why) = e ∙ ap (λ x. (returned x.0, x.1)) h
    shown (suc k, lt, e, before, why) =
        let q : false ≡ true =
          sym (ap (λ x. is_temporary is_deadline has_temporary x.0) h) ∙ before 0 (omega arith) in
        cc

stream_and_commit-known :
    {W : Type 0} (send : Sent → Act W WriteError Received) (decode : Str → List Diagnostic)
    (resolve : Url → Str → Option Url) (l : Layer) (mt : MediaType) (bytes : List ℕ) (h : Hash)
    (location : Url) (w : W)
    → l.media_type ≡ ok mt
    → l.compressed ≡ ok bytes
    → l.digest ≡ ok h
    → stream_and_commit send decode resolve l (some location) w
      ≡ (stream_blob send decode resolve bytes location >>= λ commit.
            commit_blob send decode resolve commit (hash_string h))
          w
unfolding stream_and_commit layer_result
stream_and_commit-known send decode resolve l mt bytes h location w m c d = rw (m, c, d) refl

put-same : (m : Str → Option (List ℕ)) (k : Str) (v : List ℕ) → put m k v k ≡ some v
put-same m k v = rw (str_eq_refl k) refl

put-other : (m : Str → Option (List ℕ)) (k j : Str) (v : List ℕ) → j ≢ k → put m k v j ≡ m j
put-other m k j v ne = elim (Bool-cases (str_eq k j)) [
  | inl q ↦ absurd (ne (sym (str_eq→eq k j q)))
  | inr q ↦ rw q refl
]

module _ (sum : List ℕ → List ℕ) (parse_index : List ℕ → Option (List Hash)) (randoms : ℕ → ℕ)
    (encode_error : RegError → List ℕ) (decode : Str → List Diagnostic)
    (resolve : Url → Str → Option Url)
    (resolve_path : (u : Url) (e : Str) (es : List Str)
      → All IsPlain (e ∷ es)
      → All IsUnreserved (e ∷ es)
      → resolve u (b'/' ∷ join (e ∷ es) b'/') ≡ some (root_url (b'/' ∷ join (e ∷ es) b'/')))
    (s : Str) (ss : List Str) (plain : All IsPlain (s ∷ ss))
    (unreserved : All IsUnreserved (s ∷ ss)) (l : Layer) (mt : MediaType) (bytes : List ℕ)
    (h : Hash) (type_known : l.media_type ≡ ok mt) (bytes_known : l.compressed ≡ ok bytes)
    (digest_known : l.digest ≡ ok h) (digest_plain : IsPlain (hash_string h))
    (honest : content_digest sum bytes ≡ hash_string h) where
  abbrev wire : Sent → Site → Result WriteError Received × Site
  wire = net sum parse_index randoms encode_error decode resolve

  -- the URL of an upload, of which the registry gives the path
  located :
      (n : ℕ) (u : Url)
      → resolve u (upload_path s ss plain (decimal n))
        ≡ some (root_url (upload_path s ss plain (decimal n)))
  located n u =
      let path = upload_path-join s ss plain (decimal n) in
      let es = whole_path s ss plain (decimal n) in
      ap (resolve u) path
      ∙ resolve_path u (codes "v2") es
          (whole_path-IsPlain s ss plain (decimal n) (decimal-IsPlain n))
          (
            refl,
            All-append IsUnreserved (s ∷ ss) (codes "blobs" ∷ codes "uploads" ∷ decimal n ∷ [])
                unreserved (refl, (refl, (decimal-IsUnreserved n, tt))),
          )
      ∙ ap (λ p. some (root_url p)) (sym path)

  -- the site after the three requests of `tryUpload`
  abbrev uploaded : Site → Site
  uploaded w =
      let id = decimal (randoms w.drawn) in
      let r = streamed w.registry id bytes in
      next_site (committed r id (hash_string h)) (next_site r (next_site w.registry w))

  held :
      (w : Site) (id : Str)
      → or_empty ((streamed w.registry id bytes).blobs.uploads id) ++ [] ≡ bytes
  held w id =
      append-nil (or_empty (put w.registry.blobs.uploads id bytes id))
      ∙ ap or_empty (put-same w.registry.blobs.uploads id bytes)

  try_upload-net :
      (from mount : Str) (w : Site)
      → w.registry.blobs.uploads (decimal (randoms w.drawn)) ≡ none
      → try_upload wire decode resolve (repo s ss plain) from mount l w ≡ (ok tt, uploaded w)
  unfolding try_upload
  try_upload-net from mount w free =
      let id = decimal (randoms w.drawn) in
      let location : Url = root_url (upload_path s ss plain id) in
      let w1 : Site = next_site w.registry w in
      let w2 : Site = next_site (streamed w.registry id bytes) w1 in
      step-ok (initiate_upload wire decode resolve (repo s ss plain) from mount)
        (stream_and_commit wire decode resolve l) w w1 (some location)
        (initiate_upload-net sum parse_index randoms encode_error decode resolve s ss plain from
          mount w (located (randoms w.drawn)))
      ∙ stream_and_commit-known wire decode resolve l mt bytes h location w1 type_known bytes_known
          digest_known
      ∙ step-ok (stream_blob wire decode resolve bytes location)
          (λ commit. commit_blob wire decode resolve commit (hash_string h)) w1 w2 location
          (stream_blob-net sum parse_index randoms encode_error decode resolve s ss plain id bytes
            w1 (decimal-IsPlain (randoms w.drawn)) free (located (randoms w.drawn)))
      ∙ commit_blob-net sum parse_index randoms encode_error decode resolve s ss plain id
          (hash_string h) w2 (decimal-IsPlain (randoms w.drawn)) digest_plain.full
          (ap (content_digest sum) (held w id) ∙ honest)

  stored : (w : Site) → (uploaded w).registry.blobs.contents (hash_string h) ≡ some bytes
  stored w =
      put-same w.registry.blobs.contents (hash_string h) _
      ∙ ap some (held w (decimal (randoms w.drawn)))

  module _ {F : Type 0} (floats : Floats F) (draws : ℕ → F) (factor jitter : F)
      (is_deadline : WriteError → Bool) (has_temporary : WriteError → Option Bool) where
    try_three_times-net :
        (from mount : Str) (w : Site)
        → w.registry.blobs.uploads (decimal (randoms w.drawn)) ≡ none
        → try_three_times wire decode resolve floats draws factor jitter is_deadline has_temporary
            (repo s ss plain)
            from
            mount
            l
            w
          ≡ (ok tt, uploaded w)
    unfolding try_three_times retried attempt attempted
    try_three_times-net from mount w free = ap (retried wire decode resolve) (
        retry-first floats draws (attempt wire decode resolve (repo s ss plain) from mount l)
          is_deadline has_temporary factor jitter w (uploaded w)
          (ap (attempted wire decode resolve) (try_upload-net from mount w free)))

    abbrev run : Str → Option (Str × Str) → Site → Result WriteError Unit × Site
    run registry mountable w =
        upload_one wire decode resolve floats draws factor jitter is_deadline has_temporary registry
          (repo s ss plain) mountable l w

    abbrev run_known :
        Str → Option (Str × Str) → Result Fault Hash → Site → Result WriteError Unit × Site
    run_known registry mountable d w =
        upload_digest wire decode resolve floats draws factor jitter is_deadline has_temporary
          registry (repo s ss plain) mountable l d w

    abbrev otherwise : Str → Option (Str × Str) → Bool → Act Site WriteError Unit
    otherwise registry mountable =
        unless_existing wire decode resolve floats draws factor jitter is_deadline has_temporary (
          try_three_times wire decode resolve floats draws factor jitter is_deadline has_temporary
            (repo s ss plain) (mount_from wire decode resolve registry mountable) (hash_string h) l)

    upload_one-checked :
        (registry : Str) (mountable : Option (Str × Str)) (w : Site) (existing : Bool)
        → check_existing_blob wire decode resolve (repo s ss plain) h w
          ≡ (ok existing, next_site w.registry w)
        → run registry mountable w ≡ otherwise registry mountable existing (next_site w.registry w)
    unfolding upload_one upload_digest
    upload_one-checked registry mountable w existing e =
        ap (λ d. run_known registry mountable d w) digest_known
        ∙ step-ok (check_existing_blob wire decode resolve (repo s ss plain) h)
            (otherwise registry mountable) w (next_site w.registry w) existing e

    -- Provided that a reference to a rooted path resolves to that path with no query where the elements
    -- of the path are neither empty nor dots and have only letters, digits and the marks `-._~`: for a
    -- repository whose path has such elements, and a layer whose type, digest and compressed
    -- bytes are known, the digest being that of the bytes and plain too: where the registry has
    -- nothing or those bytes under the digest, and no upload under the number that it draws second,
    -- uploadOne returns no error, the registry holds the bytes under the digest then, and it holds
    -- what it held under every other.
    pub upload_one-stores :
        (registry : Str) (mountable : Option (Str × Str)) (w : Site)
        → (w.registry.blobs.contents (hash_string h) ≡ none)
          ⊎ (w.registry.blobs.contents (hash_string h) ≡ some bytes)
        → w.registry.blobs.uploads (decimal (randoms (w.drawn + 1))) ≡ none
        → (w' : Site) × (run registry mountable w ≡ (ok tt, w'))
          × (w'.registry.blobs.contents (hash_string h) ≡ some bytes)
          × ((d : Str)
              → d ≢ hash_string h
              → w'.registry.blobs.contents d ≡ w.registry.blobs.contents d)
    unfolding check_existing_blob unless_existing
    upload_one-stores registry mountable w (inl n) free = (
      uploaded (next_site w.registry w),
      upload_one-checked registry mountable w false (
            exists-missing sum parse_index randoms encode_error decode resolve s ss plain
              (hash_string h) w digest_plain n)
          ∙ try_three_times-net (mount_from wire decode resolve registry mountable) (hash_string h)
              (next_site w.registry w) free,
      stored (next_site w.registry w),
      λ d ne. put-other w.registry.blobs.contents (hash_string h) d _ ne,
    )
    upload_one-stores registry mountable w (inr e) free = (
      next_site w.registry w,
      upload_one-checked registry mountable w true (
          exists-stored sum parse_index randoms encode_error decode resolve s ss plain
            (hash_string h) bytes w digest_plain e),
      e,
      λ d ne. refl,
    )
