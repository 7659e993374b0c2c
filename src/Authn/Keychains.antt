-- ===== src/Authn/Keychains.antt =====
-- pkg/authn: authn.go, anon.go, auth.go, basic.go, bearer.go, keychain.go and multikeychain.go. The
-- file that docker keeps credentials in is a parameter.
use go_containerregistry.Prelude.{
  ◌≡◌, ◌≢◌, ◌⊎◌, inl, inr, refl, sym, ap, subst, ◌∙◌, Bool, true, false, ◌&&◌, List, [], ◌∷◌, ◌++◌,
  All, Str, codes, is_empty, str_eq, if◌then◌else◌, Result, ok, err, ◌>>=◌,
}
use go_containerregistry.Name.Options.{default_registry_name}

pub record AuthConfig : Type 0 where
  pub username : Str
  pub password : Str
  pub auth : Str
  pub identity_token : Str
  pub registry_token : Str

abbrev pub no_auth : AuthConfig
no_auth = record {
  username = [];
  password = [];
  auth = [];
  identity_token = [];
  registry_token = [];
}

-- `custom` is an Authenticator of another package, with what its method returns.
pub data Authenticator : Type 0 where
  anonymous : Authenticator
  from_config : AuthConfig → Authenticator
  basic : Str → Str → Authenticator
  bearer : Str → Authenticator
  custom : Result Str AuthConfig → Authenticator

unfoldable pub authorization : Authenticator → Result Str AuthConfig
authorization anonymous = ok no_auth
authorization (from_config cfg) = ok cfg
authorization (basic username password) =
    ok (record no_auth { username = username; password = password })
authorization (bearer token) = ok (record no_auth { registry_token = token })
authorization (custom r) = r

-- `auth == Anonymous`
unfoldable pub is_anonymous : Authenticator → Bool
is_anonymous anonymous = true
is_anonymous _ = false

pub record Resource : Type 0 where
  pub string : Str
  pub registry_str : Str

abbrev pub Keychain : Type 0
Keychain = Resource → Result Str Authenticator

-- The AuthConfig of docker/cli.
pub record DockerAuth : Type 0 where
  pub config : AuthConfig
  pub email : Str
  pub server_address : Str

unfoldable pub is_empty_auth : DockerAuth → Bool
is_empty_auth c =
    is_empty c.config.username
    && is_empty c.config.password
    && is_empty c.config.auth
    && is_empty c.config.identity_token
    && is_empty c.config.registry_token
    && is_empty c.email
    && is_empty c.server_address

abbrev pub default_auth_key : Str
default_auth_key = codes "https://index.docker.io/v1/"

-- the key in the config file
unfoldable pub auth_key : Str → Str
auth_key registry = if str_eq registry default_registry_name then default_auth_key else registry

-- defaultKeychain.Resolve, with what config.Load returns: the method GetAuthConfig of a file
unfoldable pub resolve_default : Result Str (Str → Result Str DockerAuth) → Keychain
unfolding is_empty_auth auth_key
resolve_default load target = do
  get_auth_config ← load
  cfg ← get_auth_config (auth_key target.registry_str)
  if is_empty_auth cfg then ok anonymous else ok (from_config cfg.config)

-- what a keychain has resolved to, or what the rest resolves to
unfoldable pub or_rest : Authenticator → Result Str Authenticator → Result Str Authenticator
or_rest auth rest = if is_anonymous auth then rest else ok auth

-- multiKeychain.Resolve
unfoldable pub resolve_multi : List Keychain → Keychain
unfolding or_rest
resolve_multi [] target = ok anonymous
resolve_multi (kc ∷ kcs) target =
    let rest = resolve_multi kcs target in (kc target >>= λ auth. or_rest auth rest)

-- All keychains resolve to Anonymous.
abbrev pub AllAnonymous : List Keychain → Resource → Type 0
AllAnonymous kcs target = All (λ k. k target ≡ ok anonymous) kcs

-- The first keychain that does not resolve to Anonymous has the result `r`.
abbrev pub Decides : List Keychain → Resource → Result Str Authenticator → Type 0
Decides kcs target r =
    (before : List Keychain) × (kc : Keychain) × (after : List Keychain) × (kcs
      ≡ before ++ kc ∷ after)
    × AllAnonymous before target
    × (kc target ≡ r)
    × (r ≢ ok anonymous)

Decides-later :
    (kc : Keychain) (kcs : List Keychain) (target : Resource) (r : Result Str Authenticator)
    → kc target ≡ ok anonymous
    → Decides kcs target r
    → Decides (kc ∷ kcs) target r
Decides-later kc kcs target r h (before, k, after, e, all, d, n) =
    (kc ∷ before, k, after, ap (λ x. kc ∷ x) e, (h, all), d, n)

-- the outcome of a composed keychain
abbrev pub IsResolved : List Keychain → Resource → Result Str Authenticator → Type 0
IsResolved kcs target r = (AllAnonymous kcs target × (r ≡ ok anonymous)) ⊎ Decides kcs target r

is_anon : Result Str Authenticator → Bool
unfolding is_anonymous
is_anon (ok a) = is_anonymous a
is_anon (err e) = false

decided : (r : Result Str Authenticator) → is_anon r ≡ false → r ≢ ok anonymous
unfolding is_anon is_anonymous
decided r h e = let q : true ≡ false = sym (ap is_anon e) ∙ h in cc

IsResolved-later :
    (kc : Keychain) (kcs : List Keychain) (target : Resource) (r : Result Str Authenticator)
    → kc target ≡ ok anonymous
    → IsResolved kcs target r
    → IsResolved (kc ∷ kcs) target r
IsResolved-later kc kcs target r h (inl (all, e)) = inl ((h, all), e)
IsResolved-later kc kcs target r h (inr d) = inr (Decides-later kc kcs target r h d)

-- A composed keychain resolves to Anonymous if all its keychains do. If not, it gives what the first
-- keychain that does not resolve to Anonymous gives, an error or an Authenticator.
pub resolve_multi-IsResolved :
    (kcs : List Keychain) (target : Resource) → IsResolved kcs target (resolve_multi kcs target)
unfolding resolve_multi or_rest is_anonymous is_anon
resolve_multi-IsResolved [] target = inl (tt, refl)
resolve_multi-IsResolved (kc ∷ kcs) target =
    by (resolve_multi-IsResolved kcs target) (kc target) refl
  where
    whole : Result Str Authenticator → Result Str Authenticator
    whole r = r >>= λ auth. or_rest auth (resolve_multi kcs target)

    here :
        (r : Result Str Authenticator)
        → kc target ≡ r
        → whole r ≡ r
        → is_anon r ≡ false
        → IsResolved (kc ∷ kcs) target (whole (kc target))
    here r h e n =
        let same = ap whole h ∙ e in
        inr ([], kc, kcs, refl, tt, h ∙ sym same, (λ q. decided r n (sym same ∙ q)))

    by :
        IsResolved kcs target (resolve_multi kcs target)
        → (r : Result Str Authenticator) → kc target ≡ r
        → IsResolved (kc ∷ kcs) target (whole (kc target))
    by later (err e) h = here (err e) h refl refl
    by later (ok anonymous) h =
        subst (λ r. IsResolved (kc ∷ kcs) target r) (sym (ap whole h))
          (IsResolved-later kc kcs target _ h later)
    by later (ok (from_config c)) h = here (ok (from_config c)) h refl refl
    by later (ok (basic u p)) h = here (ok (basic u p)) h refl refl
    by later (ok (bearer t)) h = here (ok (bearer t)) h refl refl
    by later (ok (custom c)) h = here (ok (custom c)) h refl refl
