-- ===== src/Onboarding/AuthControls.antt =====
-- The body of `AuthStep` in Onboarding.tsx: the buttons of the providers, the inputs of the chosen one,
-- and what of them is sent.
use mcpxy.Prelude.{
  String, Bool, true, false, Option, none, some, List, [], ◌∷◌, ◌≡◌, refl, ap, sym, ◌∙◌, arith,
}
use mcpxy.Onboarding.Auth.{
  AuthProvider, local, google, m365, sso_oidc, sso_saml, AuthForm, section_of, is_local, config_of,
  submit_as, handle_submit, handle_submit_chosen, ignored,
}

pub data Control : Type 0 where
  provider_button : (label : String) (chosen : Bool) → Control
  input : (label value : String) → Control

abbrev same_provider : AuthProvider → AuthProvider → Bool
same_provider local local = true
same_provider google google = true
same_provider m365 m365 = true
same_provider sso_oidc sso_oidc = true
same_provider sso_saml sso_saml = true
same_provider _ _ = false

abbrev is_chosen : Option AuthProvider → AuthProvider → Bool
is_chosen none p = false
is_chosen (some q) p = same_provider q p

unfoldable pub provider_label : AuthProvider → String
provider_label local = "Username / Password"
provider_label google = "Google"
provider_label m365 = "Microsoft 365"
provider_label sso_oidc = "SSO (OIDC)"
provider_label sso_saml = "SSO (SAML)"

abbrev button : AuthForm → AuthProvider → Control
button f p = provider_button (provider_label p) (is_chosen f.provider p)

-- The client that an OAuth provider knows.
abbrev client_inputs : AuthForm → List Control → List Control
client_inputs f more =
    input "Client ID" f.client_id
    ∷ input "Client secret" f.client_secret
    ∷ input "Redirect URI" f.redirect_uri
    ∷ more

unfoldable pub inputs_of : AuthProvider → AuthForm → List Control
inputs_of local f =
    input "Name" f.name ∷ input "Password" f.password ∷ input "Confirm password" f.confirm_pw ∷ []
inputs_of google f = client_inputs f []
inputs_of m365 f = client_inputs f (input "Tenant ID" f.tenant_id ∷ [])
inputs_of sso_oidc f = client_inputs f (input "Issuer URL" f.issuer_url ∷ [])
inputs_of sso_saml f =
    input "SP Entity ID" f.sp_entity_id
    ∷ input "IdP SSO URL" f.idp_sso_url
    ∷ input "IdP Certificate (PEM)" f.idp_cert
    ∷ []

abbrev section_controls : Option AuthProvider → AuthForm → List Control
section_controls none f = []
section_controls (some p) f = input "Admin email" f.email ∷ inputs_of p f

unfoldable pub controls : AuthForm → List Control
unfolding provider_label inputs_of
controls f =
    button f local
    ∷ button f google
    ∷ button f m365
    ∷ button f sso_oidc
    ∷ button f sso_saml
    ∷ section_controls f.provider f

same_provider_shown : (f g : AuthForm) → controls f ≡ controls g → f.provider ≡ g.provider
unfolding controls
same_provider_shown f g h = ground arith

submit_as-inputs :
    (jwt_secret : String) (p : AuthProvider) (f g : AuthForm)
    → section_controls (some p) f ≡ section_controls (some p) g
    → submit_as jwt_secret p f ≡ submit_as jwt_secret p g
unfolding inputs_of submit_as config_of section_of is_local
submit_as-inputs jwt_secret local f g h = ground arith
submit_as-inputs jwt_secret google f g h = ground arith
submit_as-inputs jwt_secret m365 f g h = ground arith
submit_as-inputs jwt_secret sso_oidc f g h = ground arith
submit_as-inputs jwt_secret sso_saml f g h = ground arith

unchosen :
    (jwt_secret : String) (f : AuthForm) → f.provider ≡ none → handle_submit jwt_secret f ≡ ignored
unfolding handle_submit
unchosen jwt_secret f e = ground arith

-- What "Continue" does depends on nothing but what is shown: two states of the form with the same
-- buttons and the same inputs are refused alike, or send the same configuration, and what was typed
-- for another provider is never sent.
pub handle_submit-controls :
    (jwt_secret : String) (f g : AuthForm)
    → controls f ≡ controls g
    → handle_submit jwt_secret f ≡ handle_submit jwt_secret g
unfolding controls handle_submit
handle_submit-controls jwt_secret f g h =
    let p = same_provider_shown f g h in
    let rest : section_controls f.provider f ≡ section_controls g.provider g = ground arith in
    by_provider f.provider refl (sym p) rest
  where
    by_provider :
        (o : Option AuthProvider)
        → f.provider ≡ o
        → g.provider ≡ f.provider
        → section_controls f.provider f ≡ section_controls g.provider g
        → handle_submit jwt_secret f ≡ handle_submit jwt_secret g
    by_provider none e d r = unchosen jwt_secret f e ∙ sym (unchosen jwt_secret g (d ∙ e))
    by_provider (some q) e d r =
        let same =
          ap (λ o. section_controls o f) (sym e) ∙ r ∙ ap (λ o. section_controls o g) (d ∙ e) in
        handle_submit_chosen jwt_secret f q e
        ∙ submit_as-inputs jwt_secret q f g same
        ∙ sym (handle_submit_chosen jwt_secret g q (d ∙ e))
