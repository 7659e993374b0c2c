-- ===== src/Transport/Handshake/Examples.antt =====
-- A registry that is challenged for a bearer token, over http.
use go_containerregistry.Prelude.{
  ℕ, ◌+◌, ◌≡◌, ◌⊎◌, inr, refl, List, [], ◌∷◌, All, none, Str, codes, contains, str_eq, put,
  empty_map, Result, ok, err, if◌then◌else◌,
}
use go_containerregistry.Authn.Keychains.{basic, authorization}
use go_containerregistry.Transport.Errors.{Diagnostic}
use go_containerregistry.Transport.Addresses.{canonical_address, port_of}
use go_containerregistry.Transport.Addresses.Ports.{canonical_address-port}
use go_containerregistry.Transport.Ping.{
  Challenge, PingAnswer, PingResp, PingError, GetFailure, failed, to_lower, challenged_by,
  ping_result, ping_answered, ping_loop, ping_url, schemes, ping, ping-scheme,
}
use go_containerregistry.Transport.Bearer.{
  BearerTransport, TokenRequest, RefreshError, TokenResponse, add_challenges, authorized_by,
  token_content, refresh_basic, with_response, exchange_token, refresh_with, refresh,
}
use go_containerregistry.Transport.Bearer.Scopes.{ContainsAll, Wanted, add_challenges-ContainsAll}
use go_containerregistry.Transport.Handshake.{
  value_or, seeded, new_bearer, for_challenge, after_ping, new_with_context,
}
use go_containerregistry.Transport.Handshake.Seeded.{IsFor, new_with_context-IsFor}

abbrev challenge : Challenge
challenge = record {
  scheme = codes "Bearer";
  parameters =
      put (put empty_map (codes "realm") (codes "https://auth")) (codes "scope") (codes "a b");
}

abbrev asked : PingAnswer
asked = record {
  answer = record { status_code = 401; body = ok []; request = none };
  challenges = challenge ∷ [];
  www_authenticate = [];
}

abbrev no_diagnostics : Str → List Diagnostic
no_diagnostics body = []

-- only http answers
abbrev insecure_get : Str → ℕ → Result GetFailure PingAnswer × ℕ
insecure_get url n = (
  if str_eq url (codes "http://local/v2/") then ok asked else err (failed (codes "refused")),
  n + 1,
)

abbrev insecure_ping : ℕ → Result PingError PingResp × ℕ
insecure_ping n = ping no_diagnostics insecure_get (codes "local") (codes "http") n

abbrev token_server : TokenRequest → ℕ → Result RefreshError (List ℕ) × ℕ
token_server req n = (ok (1 ∷ []), n + 1)

abbrev one_token : List ℕ → Result RefreshError TokenResponse
one_token content = ok (record { token = codes "t"; access_token = []; refresh_token = [] })

abbrev over_http : PingResp
over_http = record {
  challenge = codes "bearer";
  parameters = challenge.parameters;
  scheme = codes "http";
}

abbrev pull : List Str
pull = codes "repository:foo:pull" ∷ []

abbrev seeded_transport : BearerTransport
seeded_transport = record {
  basic = basic (codes "u") (codes "p");
  token = codes "t";
  registry = codes "local";
  realm = codes "https://auth";
  service = codes "local";
  scopes = pull;
  scheme = codes "http";
}

canonical_address-port_example :
    canonical_address (codes "gcr.io:443") (codes "https")
    ≡ canonical_address (codes "gcr.io") (codes "https")
unfolding contains port_of str_eq
canonical_address-port_example =
    canonical_address-port (codes "gcr.io") (codes "443") (codes "https")
      (record { no_colon = refl; no_open = refl; no_close = refl }) (inr refl)

ping-scheme_example :
    (over_http.scheme ≡ codes "https")
    ⊎ ((codes "http" ≡ codes "http")
        × (over_http.scheme ≡ codes "http")
        × (e : Str) × ((insecure_get (ping_url (codes "https") (codes "local")) 0).0
            ≡ err (failed e)))
unfolding ping ping_loop ping_answered ping_result challenged_by ping_url schemes to_lower str_eq
ping-scheme_example =
    ping-scheme no_diagnostics insecure_get (codes "local") (codes "http") 0 over_http refl

add_challenges-ContainsAll_example :
    ContainsAll pull (add_challenges (challenge ∷ []) pull)
    × All (λ c. Wanted c (add_challenges (challenge ∷ []) pull)) (challenge ∷ [])
add_challenges-ContainsAll_example = add_challenges-ContainsAll (challenge ∷ []) pull

new_with_context-IsFor_example :
    (pr : PingResp) × ((insecure_ping 0).0 ≡ ok pr) × IsFor pr (codes "local") pull seeded_transport
unfolding ping ping_loop ping_answered ping_result challenged_by ping_url schemes to_lower str_eq
    new_with_context after_ping for_challenge new_bearer seeded value_or refresh authorized_by
    authorization refresh_with exchange_token token_content refresh_basic with_response
new_with_context-IsFor_example =
    new_with_context-IsFor token_server one_token (codes "local") (basic (codes "u") (codes "p"))
      pull insecure_ping seeded_transport 0 3 refl
