-- ===== src/Manual/Controls.antt =====
-- The body of AddManuallyDialog.tsx: the controls that the dialog shows, in their order, with their
-- values and whether they are disabled; and its messages.
pub mod Shown
use mcpxy.Prelude.{
  String, Bool, true, false, not, Option, none, some, List, [], ◌∷◌, ◌++◌, ◌&&◌, truthy,
  if◌then◌else◌,
}
use mcpxy.Api.Types.{UpstreamTransport, stdio, http}
use mcpxy.Manual.KeyValues.{KeyValue}
use mcpxy.Manual.Name.{name_valid}
use mcpxy.Manual.Payload.{
  AuthType, no_auth, bearer_auth, api_key_auth, basic_auth, oauth2_auth, Form,
}
use mcpxy.Manual.Submit.{Progress}

pub data Control : Type 0 where
  -- An input of text or of a number, and the lines of arguments.
  input : (label value : String) (disabled : Bool) → Control
  key_values : (label : String) (items : List KeyValue) → Control
  -- The buttons of a choice, of which the chosen one is marked.
  transport_buttons : (chosen : UpstreamTransport) → Control
  auth_buttons : (chosen : AuthType) → Control
  checkbox : (label : String) (checked : Bool) → Control

unfoldable pub auth_controls : Form → List Control
auth_controls f = elim f.auth_type [
  | no_auth ↦ []
  | bearer_auth ↦ input "Bearer token" f.bearer_token false ∷ []
  | api_key_auth ↦
      input "Header name" f.api_key_header false ∷ input "Header value" f.api_key_value false ∷ []
  | basic_auth ↦ input "Username" f.basic_user false ∷ input "Password" f.basic_pass false ∷ []
  | oauth2_auth ↦
      input "Issuer URL (preferred)" f.oauth_issuer false
      ∷ input "Authorization endpoint (override)" f.oauth_auth_endpoint false
      ∷ input "Token endpoint (override)" f.oauth_token_endpoint false
      ∷ input "Client ID" f.oauth_client_id f.oauth_dynamic_reg
      ∷ input "Client secret" f.oauth_client_secret f.oauth_dynamic_reg
      ∷ input "Scopes (space- or comma-separated)" f.oauth_scopes false
      ∷ checkbox "Register dynamically" f.oauth_dynamic_reg
      ∷ []
]

unfoldable pub transport_controls : Form → List Control
unfolding auth_controls
transport_controls f = elim f.transport [
  | stdio ↦
      input "Command" f.command false
      ∷ input "Arguments (one per line)" f.args_text false
      ∷ key_values "Environment variables" f.stdio_env
      ∷ input "Queue size (advanced)" f.queue_size false
      ∷ []
  | http ↦
      input "URL" f.url false
      ∷ input "Timeout (seconds)" f.timeout_s false
      ∷ key_values "Static headers" f.http_headers
      ∷ auth_buttons f.auth_type
      ∷ auth_controls f
]

abbrev pub replace_box : Bool → Control
replace_box replace = checkbox "Replace if an upstream with this name already exists" replace

unfoldable pub controls : Form → (replace : Bool) → List Control
unfolding transport_controls
controls f replace =
    (input "Upstream name" f.name false ∷ transport_buttons f.transport ∷ transport_controls f)
    ++ replace_box replace ∷ []

-- `name && !nameValid`
unfoldable pub name_error : Form → Bool
name_error f = truthy f.name && not (name_valid f.name)

abbrev shown : Option String → List String
shown none = []
shown (some s) = if truthy s then s ∷ [] else []

-- The boxes of the error, the warning and the result.
unfoldable pub messages : Progress → List String
messages p = shown p.error ++ (shown p.warning ++ shown p.result)
