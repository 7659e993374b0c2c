-- ===== src/Transport/Bearer.antt =====
-- pkg/v1/remote/transport: basic.go, bearer.go, schemer.go and NewWithContext of transport.go. The
-- wrapped RoundTripper is `inner`. A request for a token, with the check of its answer, is
-- `exchange`, and the JSON of the answer is decoded by `decode`.
pub mod Scopes
pub mod Tokens
use go_containerregistry.Prelude.{
  ℕ, ◌+◌, ◌-◌, ◌*◌, ◌/◌, ◌%◌, Bool, true, false, ◌&&◌, ◌||◌, not, any, List, [], ◌∷◌, ◌++◌, Option,
  none, some, Str, codes, split, join, is_empty, str_eq, ltb, ◌==◌, if◌then◌else◌, Result, ok, err,
  StrMap, put,
}
use go_containerregistry.Authn.Keychains.{
  AuthConfig, no_auth, Authenticator, from_config, authorization, is_anonymous,
}
use go_containerregistry.Transport.Values.{get, set_value}
use go_containerregistry.Transport.Errors.{CheckFailure, structured}
use go_containerregistry.Transport.Addresses.{matches_host}
use go_containerregistry.Transport.Ping.{Challenge, PingResp, to_lower}
use go_containerregistry.Remote.Act.{Act, done, fail_with, lift, ◌>>=◌}

pub record HttpRequest : Type 0 where
  pub host : Str
  pub url_host : Str
  pub url_scheme : Str
  pub headers : List (Str × Str)
  pub body : List ℕ

unfoldable pub with_authorization : HttpRequest → Str → HttpRequest
with_authorization req v = record req { headers = set_value req.headers (codes "Authorization") v }

sextet : ℕ → ℕ
sextet n =
    if ltb n 26
    then b'A' + n
    else if ltb n 52
    then b'a' + (n - 26)
    else if ltb n 62
    then b'0' + (n - 52)
    else if n == 62
    then b'+'
    else b'/'

-- base64.StdEncoding.EncodeToString
unfoldable pub base64 : List ℕ → Str
unfolding sextet
base64 [] = []
base64 (a ∷ []) = sextet (a / 4) ∷ sextet (a % 4 * 16) ∷ b'=' ∷ b'=' ∷ []
base64 (a ∷ b ∷ []) =
    sextet (a / 4) ∷ sextet (a % 4 * 16 + b / 16) ∷ sextet (b % 16 * 4) ∷ b'=' ∷ []
base64 (a ∷ b ∷ c ∷ rest) =
    sextet (a / 4)
    ∷ sextet (a % 4 * 16 + b / 16)
    ∷ sextet (b % 16 * 4 + c / 64)
    ∷ sextet (c % 64)
    ∷ base64 rest

-- The header of basicTransport, from the credentials.
unfoldable pub basic_header : AuthConfig → HttpRequest → HttpRequest
basic_header auth req =
    if not (is_empty auth.registry_token)
    then with_authorization req (codes "Bearer " ++ auth.registry_token)
    else if not (is_empty auth.username) && not (is_empty auth.password)
    then with_authorization req (codes "Basic " ++ base64 (auth.username ++ b':' ∷ auth.password))
    else if not (is_empty auth.auth)
    then with_authorization req (codes "Basic " ++ auth.auth)
    else req

basic_with : Str → HttpRequest → Result Str AuthConfig → Result Str HttpRequest
basic_with target req (ok auth) =
    ok (if str_eq req.host target || str_eq req.url_host target then basic_header auth req else req)
basic_with target req (err e) = err e

-- the request that basicTransport sends
unfoldable pub basic_request : Authenticator → Str → HttpRequest → Result Str HttpRequest
unfolding basic_with
basic_request auth target req =
    if is_anonymous auth then ok req else basic_with target req (authorization auth)

-- the request that schemeTransport sends, for the registry's name
unfoldable pub scheme_request : Str → Str → HttpRequest → HttpRequest
scheme_request registry scheme req =
    if matches_host registry req.host req.url_host scheme
    then record req { url_scheme = scheme }
    else req

-- `bearerTransport`; `token` is the RegistryToken of its field `bearer`.
pub record BearerTransport : Type 0 where
  pub basic : Authenticator
  pub token : Str
  pub registry : Str
  pub realm : Str
  pub service : Str
  pub scopes : List Str
  pub scheme : Str

-- the request that `sendRequest` sends
unfoldable pub authorized : BearerTransport → HttpRequest → HttpRequest
authorized bt req =
    if matches_host bt.registry req.host req.url_host bt.scheme
    then with_authorization req (codes "Bearer " ++ bt.token)
    else req

abbrev pub has_scope : List Str → Str → Bool
has_scope scopes s = any (λ t. str_eq t s) scopes

-- The loop over the scopes of a challenge, where `got` are those requested before it.
unfoldable pub add_scopes : List Str → List Str → List Str → List Str
add_scopes got [] scopes = scopes
add_scopes got (want ∷ wants) scopes =
    add_scopes got wants (if has_scope got want then scopes else scopes ++ want ∷ [])

-- the scopes after a challenge with the parameter `scope`, or without it
unfoldable pub add_scope_value : List Str → Option Str → List Str
add_scope_value scopes none = scopes
add_scope_value scopes (some scope) = add_scopes scopes (split scope b' ') scopes

-- The loop over the challenges.
unfoldable pub add_challenges : List Challenge → List Str → List Str
unfolding add_scope_value
add_challenges [] scopes = scopes
add_challenges (c ∷ cs) scopes =
    add_challenges cs (add_scope_value scopes (c.parameters (codes "scope")))

pub data TokenRequest : Type 0 where
  post_form : Str → List (Str × Str) → TokenRequest
  get_basic : Str → Authenticator → List Str → Str → TokenRequest

pub data RefreshError : Type 0 where
  not_authorized : Str → RefreshError
  check_failed : CheckFailure → RefreshError
  other : Str → RefreshError
  no_token : List ℕ → RefreshError

pub record TokenResponse : Type 0 where
  pub token : Str
  pub access_token : Str
  pub refresh_token : Str

unfoldable pub authorized_by : Result Str AuthConfig → Result RefreshError AuthConfig
authorized_by (ok a) = ok a
authorized_by (err e) = err (not_authorized e)

unfoldable pub is_not_found : RefreshError → Bool
is_not_found (check_failed (structured e)) = e.status_code == 404
is_not_found _ = false

abbrev pub default_user_agent : Str
default_user_agent = codes "go-containerregistry"

-- the values that refreshOauth posts
unfoldable pub oauth_form : BearerTransport → AuthConfig → List (Str × Str)
oauth_form bt auth =
    let v =
      (codes "client_id", default_user_agent)
      ∷ (codes "service", bt.service)
      ∷ (codes "scope", join bt.scopes b' ')
      ∷ [] in
    if not (is_empty auth.identity_token)
    then (codes "refresh_token", auth.identity_token)
      ∷ (codes "grant_type", codes "refresh_token")
      ∷ v
    else if not (is_empty auth.username) && not (is_empty auth.password)
    then (codes "access_type", codes "offline")
      ∷ (codes "password", auth.password)
      ∷ (codes "username", auth.username)
      ∷ (codes "grant_type", codes "password")
      ∷ v
    else v

module _ {W : Type 0} (exchange : TokenRequest → Act W RefreshError (List ℕ))
    (decode : List ℕ → Result RefreshError TokenResponse) where
  -- refreshBasic
  unfoldable pub refresh_basic : BearerTransport → Act W RefreshError (List ℕ)
  refresh_basic bt = exchange (get_basic bt.realm bt.basic bt.scopes bt.service)

  -- refreshOauth
  unfoldable pub refresh_oauth : BearerTransport → AuthConfig → Act W RefreshError (List ℕ)
  refresh_oauth bt auth = exchange (post_form bt.realm (oauth_form bt auth))

  unfoldable pub or_basic :
      BearerTransport → Result RefreshError (List ℕ) × W → Result RefreshError (List ℕ) × W
  or_basic bt (ok content, w) = (ok content, w)
  or_basic bt (err e, w) = if is_not_found e then refresh_basic bt w else (err e, w)

  unfoldable pub token_content : BearerTransport → AuthConfig → Act W RefreshError (List ℕ)
  unfolding or_basic
  token_content bt auth w =
      if not (is_empty auth.identity_token)
      then or_basic bt (refresh_oauth bt auth w)
      else refresh_basic bt w

  -- what the answer of the token server makes of the transport
  unfoldable pub with_response :
      BearerTransport → List ℕ → TokenResponse → Result RefreshError BearerTransport
  with_response bt content response =
      let token =
        if not (is_empty response.access_token) then response.access_token else response.token in
      if is_empty token
      then err (no_token content)
      else ok (record bt {
        token = token;
        basic =
            if not (is_empty response.refresh_token)
            then from_config (record no_auth { identity_token = response.refresh_token })
            else bt.basic;
      })

  unfoldable pub exchange_token : BearerTransport → AuthConfig → Act W RefreshError BearerTransport
  exchange_token bt auth = do
    content ← token_content bt auth
    response ← lift (decode content)
    lift (with_response bt content response)

  unfoldable pub refresh_with : BearerTransport → AuthConfig → Act W RefreshError BearerTransport
  refresh_with bt auth =
      if not (is_empty auth.registry_token)
      then done (record bt { token = auth.registry_token })
      else exchange_token bt auth

  -- refresh, which takes the transport to the one it leaves
  unfoldable pub refresh : BearerTransport → Act W RefreshError BearerTransport
  unfolding authorized_by
  refresh bt = do auth ← lift (authorized_by (authorization bt.basic)); refresh_with bt auth
