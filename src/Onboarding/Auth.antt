-- ===== src/Onboarding/Auth.antt =====
-- `AuthStep` of Onboarding.tsx: the choice of a provider, its checks, and the two calls.
use mcpxy.Prelude.{
  String, Bool, true, false, not, Option, none, some, ◌&&◌, ◌==◌, eq_iff, ltb, truthy, truthy_iff,
  utf16_length, ◌≡◌, ◌≢◌, ◌≤◌, ◌↔◌, refl, sym, ap, ◌∙◌, arith, if◌then◌else◌,
}
use mcpxy.Api.Json.{Result, ok, err, message_of}

pub data AuthProvider : Type 0 where
  local google m365 sso_oidc sso_saml : AuthProvider

pub record AuthForm : Type 0 where
  pub provider : Option AuthProvider
  pub email : String
  pub name : String
  pub password : String
  pub confirm_pw : String
  pub client_id : String
  pub client_secret : String
  pub redirect_uri : String
  pub tenant_id : String
  pub issuer_url : String
  pub sp_entity_id : String
  pub idp_sso_url : String
  pub idp_cert : String

-- The section of the body that belongs to the provider.
pub data ProviderSection : Type 0 where
  bootstrap_admin : (email name password : String) → ProviderSection
  google_section : (client_id client_secret redirect_uri : String) → ProviderSection
  m365_section : (client_id client_secret tenant_id redirect_uri : String) → ProviderSection
  sso_oidc_section : (issuer_url client_id client_secret redirect_uri : String) → ProviderSection
  sso_saml_section : (sp_entity_id idp_sso_url idp_cert : String) → ProviderSection

pub record AuthyConfig : Type 0 where
  pub primary_provider : AuthProvider
  pub jwt_secret : String
  pub bootstrap_admin_email : String
  pub section : ProviderSection

unfoldable pub section_of : AuthProvider → AuthForm → ProviderSection
section_of local f = bootstrap_admin f.email (if truthy f.name then f.name else f.email) f.password
section_of google f = google_section f.client_id f.client_secret f.redirect_uri
section_of m365 f = m365_section f.client_id f.client_secret f.tenant_id f.redirect_uri
section_of sso_oidc f = sso_oidc_section f.issuer_url f.client_id f.client_secret f.redirect_uri
section_of sso_saml f = sso_saml_section f.sp_entity_id f.idp_sso_url f.idp_cert

-- What a click on "Continue" comes to before anything is sent.
pub data Click : Type 0 where
  ignored : Click
  refused : (message : String) → Click
  sent : AuthyConfig → Click

unfoldable pub is_local : AuthProvider → Bool
is_local local = true
is_local _ = false

-- The body of the POST to `set_authy_config`.
unfoldable pub config_of : (jwt_secret : String) → AuthProvider → AuthForm → AuthyConfig
config_of jwt_secret provider f = record {
  primary_provider = provider;
  jwt_secret = jwt_secret;
  bootstrap_admin_email = f.email;
  section = section_of provider f;
}

unfoldable pub submit_as : (jwt_secret : String) → AuthProvider → AuthForm → Click
submit_as jwt_secret provider f =
    if not (truthy f.email)
    then refused "Admin email is required"
    else if is_local provider && ltb (utf16_length f.password) 8
    then refused "Password must be at least 8 characters"
    else if is_local provider && not (f.password == f.confirm_pw)
    then refused "Passwords do not match"
    else sent (config_of jwt_secret provider f)

-- `handleSubmit` up to its first `await`; `jwt_secret` is the token that `generateToken` draws.
unfoldable pub handle_submit : (jwt_secret : String) → AuthForm → Click
handle_submit jwt_secret f = elim f.provider [
  | none ↦ ignored
  | some provider ↦ submit_as jwt_secret provider f
]

-- What the wizard sees behind the calls: an error or the next step, and a token to keep.
pub record Outcome : Type 0 where
  pub error : Option String
  pub next : Bool
  pub persisted : Option String

-- The automatic login of a local provider; a failure of it is ignored.
unfoldable pub persisted_by : AuthProvider → Result String → Option String
persisted_by local (ok token) = if truthy token then some token else none
persisted_by local (err e) = none
persisted_by _ login = none

-- `handleSubmit` behind the first `await`; `login` is what the login call would answer, the
-- `token` of its body.
unfoldable pub settle : AuthProvider → Result (Unit {0}) → (login : Result String) → Outcome
unfolding persisted_by
settle provider (ok done) login = record {
  error = none;
  next = true;
  persisted = persisted_by provider login;
}
settle provider (err e) login = record {
  error = some (message_of e);
  next = false;
  persisted = none;
}

-- What the checks ask of the form, for a chosen provider.
abbrev pub IsAccepted : AuthForm → AuthProvider → Type 0
IsAccepted f local = (f.email ≢ "") × (8 ≤ utf16_length f.password) × (f.password ≡ f.confirm_pw)
IsAccepted f _ = f.email ≢ ""

submit_as-local :
    (jwt_secret : String) (f : AuthForm)
    → (IsAccepted f local → submit_as jwt_secret local f ≡ sent (config_of jwt_secret local f))
      × ((config : AuthyConfig)
          → submit_as jwt_secret local f ≡ sent config
          → IsAccepted f local × (config ≡ config_of jwt_secret local f))
unfolding submit_as is_local
submit_as-local jwt_secret f = (
  λ a. ground (arith, truthy_iff f.email, eq_iff f.password f.confirm_pw),
  λ config h. ground (arith, truthy_iff f.email, eq_iff f.password f.confirm_pw),
)

submit_as-federated :
    (jwt_secret : String) (provider : AuthProvider) (f : AuthForm)
    → is_local provider ≡ false
    → (f.email ≢ "" → submit_as jwt_secret provider f ≡ sent (config_of jwt_secret provider f))
      × ((config : AuthyConfig)
          → submit_as jwt_secret provider f ≡ sent config
          → (f.email ≢ "") × (config ≡ config_of jwt_secret provider f))
unfolding submit_as
submit_as-federated jwt_secret provider f l =
    (λ a. ground (arith, truthy_iff f.email), λ config h. ground (arith, truthy_iff f.email))

submit_as_lem :
    (jwt_secret : String) (provider : AuthProvider) (f : AuthForm)
    → (IsAccepted f provider
        → submit_as jwt_secret provider f ≡ sent (config_of jwt_secret provider f))
      × ((config : AuthyConfig)
          → submit_as jwt_secret provider f ≡ sent config
          → IsAccepted f provider × (config ≡ config_of jwt_secret provider f))
unfolding is_local
submit_as_lem jwt_secret local f = submit_as-local jwt_secret f
submit_as_lem jwt_secret google f = submit_as-federated jwt_secret google f refl
submit_as_lem jwt_secret m365 f = submit_as-federated jwt_secret m365 f refl
submit_as_lem jwt_secret sso_oidc f = submit_as-federated jwt_secret sso_oidc f refl
submit_as_lem jwt_secret sso_saml f = submit_as-federated jwt_secret sso_saml f refl

pub handle_submit_chosen :
    (jwt_secret : String) (f : AuthForm) (provider : AuthProvider)
    → f.provider ≡ some provider
    → handle_submit jwt_secret f ≡ submit_as jwt_secret provider f
unfolding handle_submit
handle_submit_chosen jwt_secret f provider e = ground arith

-- Where a provider is chosen, its configuration is sent if the e-mail is given and, for local
-- accounts, the password has eight code units and is confirmed; otherwise nothing is sent.
pub handle_submit_sound :
    (jwt_secret : String) (f : AuthForm) (provider : AuthProvider) (config : AuthyConfig)
    → f.provider ≡ some provider
    → (handle_submit jwt_secret f ≡ sent config)
      ↔ (IsAccepted f provider × (config ≡ config_of jwt_secret provider f))
handle_submit_sound jwt_secret f provider config e =
    let same = handle_submit_chosen jwt_secret f provider e in
    (
      λ h. (submit_as_lem jwt_secret provider f).1 config (sym same ∙ h),
      λ h. same ∙ (submit_as_lem jwt_secret provider f).0 h.0 ∙ ap sent (sym h.1),
    )

persisted_by_iff :
    (provider : AuthProvider) (login : Result String) (token : String)
    → (persisted_by provider login ≡ some token)
      ↔ ((provider ≡ local) × (login ≡ ok token) × (token ≢ ""))
unfolding persisted_by
persisted_by_iff local (ok s) token =
    (λ h. ground (arith, truthy_iff s), λ h. ground (arith, truthy_iff s))
persisted_by_iff local (err e) token = (λ h. cc, λ h. cc)
persisted_by_iff _ login token = (λ h. cc, λ h. cc)

-- The wizard goes on exactly when the configuration was stored, whatever the login answers; a
-- token is kept only then, for a local provider, and it is the login's and not empty.
pub settle_outcome :
    (provider : AuthProvider) (stored : Result (Unit {0})) (login : Result String) (token : String)
    → let out = settle provider stored login in
      ((out.next ≡ true) ↔ (stored ≡ ok tt))
      × ((out.error ≡ none) ↔ (out.next ≡ true))
      × ((out.persisted ≡ some token)
          ↔ ((stored ≡ ok tt) × (provider ≡ local) × (login ≡ ok token) × (token ≢ "")))
unfolding settle
settle_outcome provider (err e) login token =
    ((λ h. cc, λ h. cc), (λ h. cc, λ h. cc), (λ h. cc, λ h. cc))
settle_outcome provider (ok done) login token =
    let kept = persisted_by_iff provider login token in
    (
      (λ h. refl, λ h. refl),
      (λ h. refl, λ h. refl),
      (λ h. let (p, l, n) = kept.0 h in (refl, p, l, n), λ (d, p, l, n). kept.1 (p, l, n)),
    )
