-- ===== src/Transport/Ping.antt =====
-- pkg/v1/remote/transport/ping.go. The challenges of an answer are those of the package
-- authchallenge; `do_get` is a GET of a URL by the client.
use go_containerregistry.Prelude.{
  ℕ, ◌+◌, ◌≡◌, ◌⊎◌, inl, inr, refl, sym, ap, ◌∙◌, ◌&&◌, List, [], ◌∷◌, ◌++◌, map, Option, none,
  some, Str, codes, split, str_eq, leb, ◌==◌, if◌then◌else◌, Result, ok, err, str_eq→eq, Bool-cases,
  ok_injective, err-ne-ok, StrMap, empty_map, put,
}
use go_containerregistry.Transport.Errors.{Diagnostic, Answer, CheckFailure, check_error}
use go_containerregistry.Transport.Addresses.{cut_first}

-- strings.ToLower at ASCII letters
unfoldable pub to_lower : Str → Str
to_lower s = map (λ c. if leb b'A' c && leb c b'Z' then c + 32 else c) s

abbrev pub trim_left : Str → ℕ → Str
trim_left [] c = []
trim_left (x ∷ s) c = let rest = trim_left s c in if x == c then rest else x ∷ s

trim_right : Str → ℕ → Str
trim_right [] c = []
trim_right (x ∷ s) c = elim (trim_right s c) [
  | [] ↦ if x == c then [] else x ∷ []
  | y ∷ t ↦ x ∷ y ∷ t
]

-- strings.Trim(s, cutset) at a cutset of one byte
unfoldable pub trim : Str → ℕ → Str
unfolding trim_right
trim s c = trim_right (trim_left s c) c

-- the key and the value of a token: a key alone has an empty value
unfoldable pub key_value : Str → Str × Str
key_value token = elim (cut_first token b'=') [
  | some (key, value) ↦ (key, trim value b'"')
  | none ↦ (token, [])
]

put_tokens : StrMap Str → List Str → StrMap Str
put_tokens kv [] = kv
put_tokens kv (token ∷ tokens) =
    let (key, value) = key_value (trim token b' ') in put_tokens (put kv key value) tokens

-- parseChallenge
unfoldable pub parse_challenge : Str → StrMap Str
unfolding put_tokens
parse_challenge suffix = put_tokens empty_map (split suffix b',')

-- A challenge of the package authchallenge.
pub record Challenge : Type 0 where
  pub scheme : Str
  pub parameters : StrMap Str

pub record PingAnswer : Type 0 where
  pub answer : Answer
  pub challenges : List Challenge
  pub www_authenticate : Str

pub record PingResp : Type 0 where
  pub challenge : Str
  pub parameters : StrMap Str
  pub scheme : Str

pub data GetFailure : Type 0 where
  bad_request : Str → GetFailure
  failed : Str → GetFailure

pub data PingError : Type 0 where
  no_request : Str → PingError
  all_failed : List Str → PingError
  refused : Option CheckFailure → PingError

-- `schemes`
unfoldable pub schemes : Str → List Str
schemes registry_scheme =
    if str_eq registry_scheme (codes "http")
    then codes "https" ∷ codes "http" ∷ []
    else codes "https" ∷ []

unfoldable pub ping_url : Str → Str → Str
ping_url scheme registry = scheme ++ codes "://" ++ registry ++ codes "/v2/"

unfoldable pub challenged_by : Str → Str → List Challenge → PingResp
challenged_by scheme www_authenticate [] = record {
  challenge = to_lower www_authenticate;
  parameters = empty_map;
  scheme = scheme;
}
challenged_by scheme www_authenticate (c ∷ cs) = record {
  challenge = to_lower c.scheme;
  parameters = c.parameters;
  scheme = scheme;
}

challenged_by-scheme :
    (scheme www : Str) (cs : List Challenge) → (challenged_by scheme www cs).scheme ≡ scheme
unfolding challenged_by
challenged_by-scheme scheme www [] = refl
challenged_by-scheme scheme www (c ∷ cs) = refl

module _ (decode : Str → List Diagnostic) where
  -- the switch on the status
  unfoldable pub ping_result : Str → PingAnswer → Result PingError PingResp
  ping_result scheme a =
      if a.answer.status_code == 200
      then ok (record { challenge = codes "anonymous"; parameters = empty_map; scheme = scheme })
      else if a.answer.status_code == 401
      then ok (challenged_by scheme a.www_authenticate a.challenges)
      else err (refused (check_error decode a.answer (200 ∷ 401 ∷ [])))

  module _ {W : Type 0} (do_get : Str → W → Result GetFailure PingAnswer × W) where
    -- what follows a request, of which `again` tries the next scheme
    unfoldable pub ping_answered :
        Str
        → Result GetFailure PingAnswer × W
        → (Str → W → Result PingError PingResp × W)
        → Result PingError PingResp × W
    ping_answered scheme (ok a, w) again = (ping_result scheme a, w)
    ping_answered scheme (err (bad_request e), w) again = (err (no_request e), w)
    ping_answered scheme (err (failed e), w) again = again e w

    -- The loop of `ping`: the text of each request that fails is kept, and the next scheme is tried.
    unfoldable pub ping_loop : Str → List Str → List Str → W → Result PingError PingResp × W
    unfolding ping_answered
    ping_loop registry [] errs w = (err (all_failed errs), w)
    ping_loop registry (scheme ∷ rest) errs w =
        ping_answered scheme (do_get (ping_url scheme registry) w)
          (λ e v. ping_loop registry rest (errs ++ e ∷ []) v)

    -- ping, of the registry's name and scheme
    unfoldable pub ping : Str → Str → W → Result PingError PingResp × W
    ping registry registry_scheme w = ping_loop registry (schemes registry_scheme) [] w

  ping_result-scheme :
      (scheme : Str) (a : PingAnswer) (r : PingResp)
      → ping_result scheme a ≡ ok r
      → r.scheme ≡ scheme
  unfolding ping_result
  ping_result-scheme scheme a r h = elim (Bool-cases (a.answer.status_code == 200)) [
    | inl p ↦ sym (ap (λ x. x.scheme) (ok_injective (rw p at h)))
    | inr p ↦ elim (Bool-cases (a.answer.status_code == 401)) [
      | inl q ↦
          sym (ap (λ x. x.scheme) (ok_injective (rw (p, q) at h)))
          ∙ challenged_by-scheme scheme a.www_authenticate a.challenges
      | inr q ↦ absurd (err-ne-ok (rw (p, q) at h))
    ]
  ]

  module _ {W : Type 0} (do_get : Str → W → Result GetFailure PingAnswer × W) where
    Again :
        Str
        → Result GetFailure PingAnswer × W
        → (Str → W → Result PingError PingResp × W)
        → PingResp
        → Type 0
    Again scheme o again r =
        (r.scheme ≡ scheme) ⊎ ((e : Str) × (o.0 ≡ err (failed e)) × ((again e o.1).0 ≡ ok r))

    ping_answered-Again :
        (scheme : Str) (o : Result GetFailure PingAnswer × W)
        (again : Str → W → Result PingError PingResp × W) (r : PingResp)
        → (ping_answered do_get scheme o again).0 ≡ ok r
        → Again scheme o again r
    unfolding ping_answered Again
    ping_answered-Again scheme (ok a, w) again r h = inl (ping_result-scheme scheme a r h)
    ping_answered-Again scheme (err (bad_request e), w) again r h = absurd (err-ne-ok h)
    ping_answered-Again scheme (err (failed e), w) again r h = inr (e, refl, h)

    -- A ping that succeeds used https, or the registry's scheme is http and the request over https
    -- failed before.
    pub ping-scheme :
        (registry registry_scheme : Str) (w : W) (r : PingResp)
        → (ping do_get registry registry_scheme w).0 ≡ ok r
        → (r.scheme ≡ codes "https")
          ⊎ ((registry_scheme ≡ codes "http")
              × (r.scheme ≡ codes "http")
              × (e : Str) × ((do_get (ping_url (codes "https") registry) w).0 ≡ err (failed e)))
    unfolding ping ping_loop schemes Again
    ping-scheme registry registry_scheme w r h =
        elim (Bool-cases (str_eq registry_scheme (codes "http"))) [
          | inr p ↦ elim (by [] w (rw p at h)) [
            | inl e ↦ inl e
            | inr (e, f, q) ↦ absurd (err-ne-ok q)
          ]
          | inl p ↦ elim (by (codes "http" ∷ []) w (rw p at h)) [
            | inl e ↦ inl e
            | inr (e, f, q) ↦ elim (last_try (e ∷ []) _ q) [
              | inl g ↦ inr (str_eq→eq registry_scheme (codes "http") p, g, e, f)
              | inr (e', f', q') ↦ absurd (err-ne-ok q')
            ]
          ]
        ]
      where
        next : List Str → List Str → Str → W → Result PingError PingResp × W
        next rest errs e v = ping_loop do_get registry rest (errs ++ e ∷ []) v

        by :
            (rest : List Str) (v : W)
            → (ping_loop do_get registry (codes "https" ∷ rest) [] v).0 ≡ ok r
            → Again (codes "https") (do_get (ping_url (codes "https") registry) v) (next rest []) r
        by rest v q = ping_answered-Again (codes "https") _ (next rest []) r q

        last_try :
            (errs : List Str) (v : W)
            → (ping_loop do_get registry (codes "http" ∷ []) errs v).0 ≡ ok r
            → Again (codes "http") (do_get (ping_url (codes "http") registry) v) (next [] errs) r
        last_try errs v q = ping_answered-Again (codes "http") _ (next [] errs) r q
