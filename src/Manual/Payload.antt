-- ===== src/Manual/Payload.antt =====
-- `buildAuthPayload`, `buildPayload` and `canSubmit` of AddManuallyDialog.tsx.
use Prim.Native.String.{String, [], ◌∷◌}
use mcpxy.Prelude.{
  ℕ, Char, code, Bool, true, Option, none, some, List, [], ◌∷◌, ◌&&◌, ◌||◌, nat_eq, truthy, or_null,
  trim, map, filter, is_space, if◌then◌else◌,
}
use mcpxy.Manual.KeyValues.{KeyValue, kv_to_record}
use mcpxy.Manual.Name.{name_valid}
use mcpxy.Numbers.{Numbers}
use mcpxy.Api.Types.{UpstreamTransport, stdio, http}

pub data AuthType : Type 0 where
  no_auth bearer_auth api_key_auth basic_auth oauth2_auth : AuthType

-- The `useState` values of the dialog that make up the upstream.
pub record Form : Type 0 where
  pub name : String
  pub transport : UpstreamTransport
  pub command : String
  pub args_text : String
  pub stdio_env : List KeyValue
  pub queue_size : String
  pub url : String
  pub timeout_s : String
  pub http_headers : List KeyValue
  pub auth_type : AuthType
  pub bearer_token : String
  pub api_key_header : String
  pub api_key_value : String
  pub basic_user : String
  pub basic_pass : String
  pub oauth_issuer : String
  pub oauth_auth_endpoint : String
  pub oauth_token_endpoint : String
  pub oauth_client_id : String
  pub oauth_client_secret : String
  pub oauth_scopes : String
  pub oauth_dynamic_reg : Bool

-- `HttpAuthPayload`, the fields that the dialog fills.
pub data HttpAuthPayload : Type 0 where
  bearer : (token : String) → HttpAuthPayload
  api_key : (header value : String) → HttpAuthPayload
  basic : (username password : String) → HttpAuthPayload
  oauth2 :
      (issuer authorization_endpoint token_endpoint client_id client_secret : Option String)
      (scopes : List String) (dynamic_registration : Bool)
      → HttpAuthPayload

-- `s.split(sep)` at single characters.
abbrev onto_first : Char → List String → List String
onto_first c [] = (c ∷ []) ∷ []
onto_first c (part ∷ parts) = (c ∷ part) ∷ parts

unfoldable pub split_at : (ℕ → Bool) → String → List String
split_at sep [] = "" ∷ []
split_at sep (c ∷ s) =
    let rest = split_at sep s in if sep (code c) then "" ∷ rest else onto_first c rest

abbrev pub trimmed_parts : List String → List String
trimmed_parts parts = filter truthy (map trim parts)

-- `oauthScopes.split(/[,\s]+/)`: a run of separators is one, but the empty parts that single
-- separators leave in its place are filtered out with the others.
unfoldable pub parse_scopes : String → List String
unfolding split_at
parse_scopes s = trimmed_parts (split_at (λ c. nat_eq c b',' || is_space c) s)

unfoldable pub parse_args : String → List String
unfolding split_at
parse_args s = trimmed_parts (split_at (λ c. nat_eq c b'\n') s)

-- `none` is `undefined`.
unfoldable pub build_auth_payload : Form → Option HttpAuthPayload
unfolding parse_scopes
build_auth_payload f = elim f.auth_type [
  | no_auth ↦ none
  | bearer_auth ↦ some (bearer f.bearer_token)
  | api_key_auth ↦ some (api_key f.api_key_header f.api_key_value)
  | basic_auth ↦ some (basic f.basic_user f.basic_pass)
  | oauth2_auth ↦ some (
      oauth2 (or_null f.oauth_issuer) (or_null f.oauth_auth_endpoint)
        (or_null f.oauth_token_endpoint) (or_null f.oauth_client_id) (or_null f.oauth_client_secret)
        (parse_scopes f.oauth_scopes) f.oauth_dynamic_reg)
]

-- `Object.keys(r).length > 0`
abbrev pub unless_empty : List (String × String) → Option (List (String × String))
unless_empty [] = none
unless_empty (kv ∷ r) = some (kv ∷ r)

module _ (numbers : Numbers) where
  open numbers use {Number, positive_int, positive_float}

  -- `ManualUpstreamConfig`; an optional field that is not set is `none`.
  pub data ManualUpstreamConfig : Type 0 where
    stdio_config :
        (command : String) (args : List String) (env : Option (List (String × String)))
        (queue_size : Option Number)
        → ManualUpstreamConfig
    http_config :
        (url : String) (timeout_s : Option Number) (headers : Option (List (String × String)))
        (auth : Option HttpAuthPayload)
        → ManualUpstreamConfig

  unfoldable pub build_payload : Form → ManualUpstreamConfig
  build_payload f = elim f.transport [
    | stdio ↦
        stdio_config (trim f.command) (parse_args f.args_text)
          (unless_empty (kv_to_record f.stdio_env)) (positive_int f.queue_size)
    | http ↦
        http_config (trim f.url) (positive_float f.timeout_s)
          (unless_empty (kv_to_record f.http_headers)) (build_auth_payload f)
  ]

-- The tests of `canSubmit` that belong to one way of authenticating.
unfoldable pub auth_complete : Form → Bool
auth_complete f = elim f.auth_type [
  | no_auth ↦ true
  | bearer_auth ↦ truthy f.bearer_token
  | api_key_auth ↦ truthy f.api_key_header && truthy f.api_key_value
  | basic_auth ↦ truthy f.basic_user
  | oauth2_auth ↦
      (truthy f.oauth_issuer || (truthy f.oauth_auth_endpoint && truthy f.oauth_token_endpoint))
      && (truthy f.oauth_client_id || f.oauth_dynamic_reg)
]

unfoldable pub can_submit : Form → Bool
can_submit f = name_valid f.name && elim f.transport [
  | stdio ↦ truthy (trim f.command)
  | http ↦ truthy (trim f.url) && auth_complete f
]
