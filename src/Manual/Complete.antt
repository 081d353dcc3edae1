-- ===== src/Manual/Complete.antt =====
-- What the dialog sends once its button is enabled.
use mcpxy.Prelude.{
  true, Option, none, some, ◌≡◌, ◌≢◌, ◌↔◌, ◌⊎◌, arith, truthy_iff, or_null-ne-none_iff, trim,
}
use mcpxy.Api.Types.{UpstreamTransport, stdio, http}
use mcpxy.Manual.Name.{name_valid}
use mcpxy.Numbers.{Numbers}
use mcpxy.Manual.Payload.{
  Form, AuthType, no_auth, bearer_auth, api_key_auth, basic_auth, oauth2_auth, HttpAuthPayload,
  bearer, api_key, basic, oauth2, ManualUpstreamConfig, stdio_config, http_config,
  build_auth_payload, build_payload, auth_complete, can_submit,
}

-- What each way of authenticating needs, read off the payload.
abbrev pub HasCredentials : Option HttpAuthPayload → Type 0
HasCredentials none = Unit
HasCredentials (some (bearer token)) = token ≢ ""
HasCredentials (some (api_key header value)) = (header ≢ "") × (value ≢ "")
HasCredentials (some (basic username password)) = username ≢ ""
HasCredentials (some (oauth2 issuer auth_url token_url client_id secret scopes dynamic)) =
    ((issuer ≢ none) ⊎ ((auth_url ≢ none) × (token_url ≢ none)))
    × ((client_id ≢ none) ⊎ (dynamic ≡ true))

abbrev pub IsComplete : (numbers : Numbers) → ManualUpstreamConfig numbers → Type 0
IsComplete numbers (stdio_config command args env queue_size) = command ≢ ""
IsComplete numbers (http_config url timeout_s headers auth) = (url ≢ "") × HasCredentials auth

auth_complete_iff : (f : Form) → (auth_complete f ≡ true) ↔ HasCredentials (build_auth_payload f)
unfolding auth_complete build_auth_payload
auth_complete_iff f = by_type f.auth_type
  where
    by_type :
        (a : AuthType)
        → (auth_complete (record f { auth_type = a }) ≡ true)
          ↔ HasCredentials (build_auth_payload (record f { auth_type = a }))
    by_type no_auth = ground arith
    by_type bearer_auth = truthy_iff f.bearer_token
    by_type api_key_auth = ground (arith, truthy_iff f.api_key_header, truthy_iff f.api_key_value)
    by_type basic_auth = truthy_iff f.basic_user
    by_type oauth2_auth = ground (
      arith,
      or_null-ne-none_iff f.oauth_issuer,
      or_null-ne-none_iff f.oauth_auth_endpoint,
      or_null-ne-none_iff f.oauth_token_endpoint,
      or_null-ne-none_iff f.oauth_client_id,
    )

-- The button is enabled exactly when the name matches NAME_RE and the configuration that would be
-- sent is complete: a command, or a URL with all that its way of authenticating needs.
pub can_submit_iff :
    (numbers : Numbers) (f : Form)
    → (can_submit f ≡ true)
      ↔ ((name_valid f.name ≡ true) × IsComplete numbers (build_payload numbers f))
unfolding can_submit build_payload
can_submit_iff numbers f = by_transport f.transport
  where
    by_transport :
        (t : UpstreamTransport)
        → (can_submit (record f { transport = t }) ≡ true) ↔ (
            (name_valid f.name ≡ true)
            × IsComplete numbers (build_payload numbers (record f { transport = t })))
    by_transport stdio = ground (arith, truthy_iff (trim f.command))
    by_transport http =
        ground (arith, truthy_iff (trim f.url), auth_complete_iff (record f { transport = http }))
