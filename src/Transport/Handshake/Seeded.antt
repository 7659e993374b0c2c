-- ===== src/Transport/Handshake/Seeded.antt =====
-- The bearer transport that NewWithContext of pkg/v1/remote/transport/transport.go returns.
use go_containerregistry.Prelude.{
  ℕ, ◌≡◌, refl, sym, ap, ◌∙◌, Bool, true, false, List, Option, none, some, Str, codes, is_empty,
  str_eq, str_eq→eq, Result, ok, err, err-ne-ok, Bool-cases, inl, inr,
}
use go_containerregistry.Authn.Keychains.{Authenticator}
use go_containerregistry.Transport.Ping.{PingResp, PingError, to_lower}
use go_containerregistry.Transport.Bearer.{
  BearerTransport, TokenRequest, RefreshError, TokenResponse,
}
use go_containerregistry.Transport.Bearer.Tokens.{refresh-IsSeeded}
use go_containerregistry.Transport.Handshake.{
  Wrapped, with_bearer, NewError, seeded, new_bearer, for_challenge, after_ping, new_with_context,
}
use go_containerregistry.Remote.Act.{Act}

-- A transport made for a ping that was challenged for a Bearer token with a realm.
pub record IsFor (pr : PingResp) (registry : Str) (scopes : List Str) (bt : BearerTransport)
    : Type 0 where
  pub challenge : to_lower pr.challenge ≡ codes "bearer"
  pub realm : pr.parameters (codes "realm") ≡ some bt.realm
  pub token : is_empty bt.token ≡ false
  pub registry_eq : bt.registry ≡ registry
  pub scopes_eq : bt.scopes ≡ scopes

is_bearer : Result NewError Wrapped → Bool
is_bearer (ok (with_bearer bt)) = true
is_bearer _ = false

bearer_of :
    {W : Type 0}
    → BearerTransport
    → Result NewError Wrapped × W
    → Result RefreshError BearerTransport × W
bearer_of b (ok (with_bearer bt), w) = (ok bt, w)
bearer_of b (_, w) = (ok b, w)

not_bearer : false ≡ true → ⊥
not_bearer h = cc

module _ {W : Type 0} (exchange : TokenRequest → Act W RefreshError (List ℕ))
    (decode : List ℕ → Result RefreshError TokenResponse) (registry : Str) (auth : Authenticator)
    (scopes : List Str) where
  seeded-ok :
      (r : Result RefreshError BearerTransport × W) (bt : BearerTransport) (w' : W)
      → seeded exchange decode r ≡ (ok (with_bearer bt), w')
      → r ≡ (ok bt, w')
  unfolding seeded bearer_of
  seeded-ok (ok b, w) bt w' h = ap (bearer_of b) h
  seeded-ok (err e, w) bt w' h = absurd (err-ne-ok (ap (λ x. x.0) h))

  new_bearer-IsFor :
      (pr : PingResp) (realm : Option Str) (bt : BearerTransport) (w w' : W)
      → pr.parameters (codes "realm") ≡ realm
      → to_lower pr.challenge ≡ codes "bearer"
      → new_bearer exchange decode registry auth scopes pr realm w ≡ (ok (with_bearer bt), w')
      → IsFor pr registry scopes bt
  unfolding new_bearer
  new_bearer-IsFor pr none bt w w' e c h = absurd (err-ne-ok (ap (λ x. x.0) h))
  new_bearer-IsFor pr (some realm) bt w w' e c h =
      let s = refresh-IsSeeded exchange decode _ bt w w' (seeded-ok _ bt w' h) in
      record {
        challenge = c;
        realm = e ∙ ap some (sym s.realm);
        token = s.token;
        registry_eq = s.registry;
        scopes_eq = s.scopes;
      }

  for_challenge-IsFor :
      (pr : PingResp) (bt : BearerTransport) (w w' : W)
      → for_challenge exchange decode registry auth scopes pr w ≡ (ok (with_bearer bt), w')
      → IsFor pr registry scopes bt
  unfolding for_challenge is_bearer
  for_challenge-IsFor pr bt w w' h =
      elim (Bool-cases (str_eq (to_lower pr.challenge) (codes "anonymous"))) [
        | inl a ↦ absurd (not_bearer (ap (λ x. is_bearer x.0) (rw a at h)))
        | inr a ↦ elim (Bool-cases (str_eq (to_lower pr.challenge) (codes "basic"))) [
          | inl b ↦ absurd (not_bearer (ap (λ x. is_bearer x.0) (rw (a, b) at h)))
          | inr b ↦ elim (Bool-cases (str_eq (to_lower pr.challenge) (codes "bearer"))) [
            | inl c ↦
                new_bearer-IsFor pr (pr.parameters (codes "realm")) bt w w' refl
                  (str_eq→eq (to_lower pr.challenge) (codes "bearer") c) (rw (a, b, c) at h)
            | inr c ↦ absurd (err-ne-ok (ap (λ x. x.0) (rw (a, b, c) at h)))
          ]
        ]
      ]

  -- Where NewWithContext returns a transport for bearer tokens, the ping was challenged for one with
  -- the realm that the transport asks, and the transport has a token that is not empty, the registry
  -- and the scopes.
  pub new_with_context-IsFor :
      (ping : W → Result PingError PingResp × W) (bt : BearerTransport) (w w' : W)
      → new_with_context exchange decode ping registry auth scopes w ≡ (ok (with_bearer bt), w')
      → (pr : PingResp) × ((ping w).0 ≡ ok pr) × IsFor pr registry scopes bt
  unfolding new_with_context after_ping
  new_with_context-IsFor ping bt w w' h = by (ping w) h
    where
      by :
          (o : Result PingError PingResp × W)
          → after_ping exchange decode registry auth scopes o ≡ (ok (with_bearer bt), w')
          → (pr : PingResp) × (o.0 ≡ ok pr) × IsFor pr registry scopes bt
      by (ok pr, v) q = (pr, refl, for_challenge-IsFor pr bt v w' q)
      by (err e, v) q = absurd (err-ne-ok (ap (λ x. x.0) q))
