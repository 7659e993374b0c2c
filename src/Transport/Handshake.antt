-- ===== src/Transport/Handshake.antt =====
-- RoundTrip of pkg/v1/remote/transport/bearer.go, and NewWithContext of transport.go.
pub mod Seeded
mod Examples
use go_containerregistry.Prelude.{
  ℕ, ◌≡◌, refl, sym, ap, ◌∙◌, Bool, true, false, not, List, [], ◌∷◌, ◌++◌, Option, none, some, Str,
  codes, is_empty, str_eq, if◌then◌else◌, Result, ok, err, StrMap, Bool-cases, inl, inr, >>=-eq-ok,
  ok_injective, err-ne-ok,
}
use go_containerregistry.Authn.Keychains.{AuthConfig, Authenticator, authorization}
use go_containerregistry.Transport.Ping.{Challenge, PingResp, PingError, to_lower}
use go_containerregistry.Transport.Bearer.{
  HttpRequest, BearerTransport, authorized, add_challenges, TokenRequest, RefreshError,
  TokenResponse, refresh,
}
use go_containerregistry.Remote.Act.{Act, lift, ◌>>=◌}

pub data TripError : Type 0 where
  refresh_failed : RefreshError → TripError
  send_failed : Str → TripError

-- What NewWithContext returns: the transport that is wrapped around the one given.
pub data Wrapped : Type 0 where
  unauthorized : Wrapped
  with_basic : Authenticator → Str → Wrapped
  with_bearer : BearerTransport → Wrapped

pub data NewError : Type 0 where
  ping_failed : PingError → NewError
  missing_realm : NewError
  no_refresh : RefreshError → NewError
  unrecognized : Str → NewError

module _ {W : Type 0} (exchange : TokenRequest → Act W RefreshError (List ℕ))
    (decode : List ℕ → Result RefreshError TokenResponse) where
  module _ {R : Type 0} (inner : HttpRequest → Act W TripError R)
      (challenges : R → List Challenge) where
    -- the retry, once the transport is refreshed
    unfoldable pub resend :
        BearerTransport
        → HttpRequest
        → Result RefreshError BearerTransport × W
        → Result TripError R × (BearerTransport × W)
    resend bt req (err e, w) = (err (refresh_failed e), (bt, w))
    resend bt req (ok fresh, w) = let o = inner (authorized fresh req) w in (o.0, (fresh, o.1))

    -- what follows the first request
    unfoldable pub challenged :
        BearerTransport
        → HttpRequest
        → W
        → R
        → List Challenge
        → Result TripError R × (BearerTransport × W)
    unfolding resend
    challenged bt req w res [] = (ok res, (bt, w))
    challenged bt req w res (c ∷ cs) =
        let bt' : BearerTransport = record bt { scopes = add_challenges (c ∷ cs) bt.scopes } in
        resend bt' req (refresh exchange decode bt' w)

    unfoldable pub answered :
        BearerTransport
        → HttpRequest
        → Result TripError R × W
        → Result TripError R × (BearerTransport × W)
    unfolding challenged
    answered bt req (err e, w) = (err e, (bt, w))
    answered bt req (ok res, w) = challenged bt req w res (challenges res)

    -- bearerTransport.RoundTrip, with the transport afterwards
    unfoldable pub round_trip :
        BearerTransport → HttpRequest → W → Result TripError R × (BearerTransport × W)
    unfolding answered
    round_trip bt req w = answered bt (authorized bt req) (inner (authorized bt req) w)

  unfoldable pub value_or : Option Str → Str → Str
  value_or none d = d
  value_or (some v) d = v

  unfoldable pub seeded : Result RefreshError BearerTransport × W → Result NewError Wrapped × W
  seeded (ok bt, w) = (ok (with_bearer bt), w)
  seeded (err e, w) = (err (no_refresh e), w)

  -- the transport for a Bearer challenge
  unfoldable pub new_bearer :
      Str → Authenticator → List Str → PingResp → Option Str → Act W NewError Wrapped
  unfolding seeded value_or
  new_bearer registry auth scopes pr none w = (err missing_realm, w)
  new_bearer registry auth scopes pr (some realm) w = seeded (
      refresh exchange decode
        (record {
          basic = auth;
          token = [];
          registry = registry;
          realm = realm;
          service = value_or (pr.parameters (codes "service")) registry;
          scopes = scopes;
          scheme = pr.scheme;
        })
        w)

  unfoldable pub for_challenge : Str → Authenticator → List Str → PingResp → Act W NewError Wrapped
  unfolding new_bearer
  for_challenge registry auth scopes pr w =
      let challenge = to_lower pr.challenge in
      if str_eq challenge (codes "anonymous")
      then (ok unauthorized, w)
      else if str_eq challenge (codes "basic")
      then (ok (with_basic auth registry), w)
      else if str_eq challenge (codes "bearer")
      then new_bearer registry auth scopes pr (pr.parameters (codes "realm")) w
      else (err (unrecognized pr.challenge), w)

  unfoldable pub after_ping :
      Str → Authenticator → List Str → Result PingError PingResp × W → Result NewError Wrapped × W
  unfolding for_challenge
  after_ping registry auth scopes (ok pr, w) = for_challenge registry auth scopes pr w
  after_ping registry auth scopes (err e, w) = (err (ping_failed e), w)

  -- NewWithContext, of what `ping` is
  unfoldable pub new_with_context :
      (W → Result PingError PingResp × W) → Str → Authenticator → List Str → Act W NewError Wrapped
  unfolding after_ping
  new_with_context ping registry auth scopes w = after_ping registry auth scopes (ping w)
