-- ===== src/Transport/Bearer/Tokens.antt =====
-- What refresh of pkg/v1/remote/transport/bearer.go leaves.
use go_containerregistry.Prelude.{
  ℕ, ◌≡◌, refl, ap, subst, false, not, List, is_empty, Result, ok, ok_injective, err-ne-ok,
  Bool-cases, inl, inr, if◌then◌else◌,
}
use go_containerregistry.Authn.Keychains.{AuthConfig, authorization}
use go_containerregistry.Transport.Bearer.{
  BearerTransport, TokenRequest, RefreshError, TokenResponse, authorized_by, token_content,
  with_response, exchange_token, refresh_with, refresh,
}
use go_containerregistry.Remote.Act.{Act, continue-ok}

-- A transport with a token, for the registry, the scopes and the token server of the first one.
pub record IsSeeded (bt bt' : BearerTransport) : Type 0 where
  pub token : is_empty bt'.token ≡ false
  pub registry : bt'.registry ≡ bt.registry
  pub scopes : bt'.scopes ≡ bt.scopes
  pub realm : bt'.realm ≡ bt.realm
  pub service : bt'.service ≡ bt.service

module _ {W : Type 0} (exchange : TokenRequest → Act W RefreshError (List ℕ))
    (decode : List ℕ → Result RefreshError TokenResponse) where
  with_response-IsSeeded :
      (bt bt' : BearerTransport) (content : List ℕ) (response : TokenResponse)
      → with_response exchange decode bt content response ≡ ok bt'
      → IsSeeded bt bt'
  unfolding with_response
  with_response-IsSeeded bt bt' content response h =
      elim (Bool-cases (
        is_empty (
          if not (is_empty response.access_token)
          then response.access_token
          else response.token))) [
            | inl e ↦ absurd (err-ne-ok (rw e at h))
            | inr e ↦
                subst (IsSeeded bt) (ok_injective (rw e at h)) (record {
                  token = e;
                  registry = refl;
                  scopes = refl;
                  realm = refl;
                  service = refl;
                })
          ]

  exchange_token-IsSeeded :
      (bt bt' : BearerTransport) (auth : AuthConfig) (w w' : W)
      → exchange_token exchange decode bt auth w ≡ (ok bt', w')
      → IsSeeded bt bt'
  unfolding exchange_token
  exchange_token-IsSeeded bt bt' auth w w' h =
      let (content, v, e, h1) = continue-ok (token_content exchange decode bt auth w) _ w' bt' h in
      let (response, v', e', h2) = continue-ok (decode content, v) _ w' bt' h1 in
      with_response-IsSeeded bt bt' content response (ap (λ x. x.0) h2)

  refresh_with-IsSeeded :
      (bt bt' : BearerTransport) (auth : AuthConfig) (w w' : W)
      → refresh_with exchange decode bt auth w ≡ (ok bt', w')
      → IsSeeded bt bt'
  unfolding refresh_with
  refresh_with-IsSeeded bt bt' auth w w' h = elim (Bool-cases (is_empty auth.registry_token)) [
    | inl e ↦ exchange_token-IsSeeded bt bt' auth w w' (rw e at h)
    | inr e ↦
        subst (IsSeeded bt) (ok_injective (ap (λ x. x.0) (rw e at h)))
          (record { token = e; registry = refl; scopes = refl; realm = refl; service = refl })
  ]

  -- A refresh that succeeds leaves a token that is not empty, and the registry, the scopes and the
  -- token server as they were.
  pub refresh-IsSeeded :
      (bt bt' : BearerTransport) (w w' : W)
      → refresh exchange decode bt w ≡ (ok bt', w')
      → IsSeeded bt bt'
  unfolding refresh
  refresh-IsSeeded bt bt' w w' h =
      let (auth, v, e, h1) = continue-ok (authorized_by (authorization bt.basic), w) _ w' bt' h in
      refresh_with-IsSeeded bt bt' auth v w' h1
