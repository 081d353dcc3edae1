-- ===== src/Api/Client.antt =====
-- frontend/src/api/client.ts: the stored token and the three verbs. Each verb is two steps, the
-- request that goes out and what its answer does, since other code runs in between.
pub mod Token
use mcpxy.Prelude.{
  ℕ, String, Bool, true, false, Option, none, some, List, [], ◌∷◌, ◌++◌, ◌&&◌, leb, nat_eq, truthy,
  ◌<>◌, is_some, if◌then◌else◌,
}
use mcpxy.Api.Json.{Json, object, end, string_field, Thrown, api_error, error, Result, ok, err}

-- `localStorage`: whether reading and writing work, and the item under TOKEN_KEY.
pub record Storage : Type 0 where
  pub readable : Bool
  pub writable : Bool
  pub token : Option String

unfoldable pub get_token : Storage → Option String
get_token s = if s.readable then s.token else none

abbrev pub truthy_option : Option String → Bool
truthy_option none = false
truthy_option (some value) = truthy value

unfoldable pub set_token : Option String → Storage → Storage
set_token value s =
    if s.writable then record s { token = if truthy_option value then value else none } else s

pub data Method : Type 0 where
  get post delete : Method

pub record Request : Type 0 where
  pub method : Method
  pub path : String
  pub headers : List (String × String)
  pub include_credentials : Bool
  pub body : Option Json

unfoldable pub auth_headers : Storage → List (String × String)
unfolding get_token
auth_headers s = elim (get_token s) [
  | none ↦ []
  | some token ↦ if truthy token then ("Authorization", "Bearer " <> token) ∷ [] else []
]

unfoldable pub get_request : String → Storage → Request
unfolding auth_headers
get_request path s = record {
  method = get;
  path = path;
  headers = ("Accept", "application/json") ∷ auth_headers s;
  include_credentials = true;
  body = none;
}

-- `JSON.stringify(body ?? {})` is kept as the value that is sent.
unfoldable pub post_request : String → Option Json → Storage → Request
unfolding auth_headers
post_request path body s = record {
  method = post;
  path = path;
  headers = ("Content-Type", "application/json") ∷ ("Accept", "application/json") ∷ auth_headers s;
  include_credentials = true;
  body = elim body [ none ↦ some (object end) | some b ↦ some b ];
}

unfoldable pub delete_request : String → Storage → Request
unfolding auth_headers
delete_request path s = record {
  method = delete;
  path = path;
  headers = ("Accept", "application/json") ∷ auth_headers s;
  include_credentials = true;
  body = none;
}

-- The body of a response: reading it can fail.
pub data Body : Type 0 where
  text : String → Body
  broken : (message : String) → Body

pub record Response : Type 0 where
  pub status : ℕ
  pub status_text : String
  pub body : Body

-- `res.ok` of the fetch standard.
abbrev pub is_ok : ℕ → Bool
is_ok status = leb 200 status && leb status 299

-- What `fetch` gives: a rejected promise, or a response of any status.
pub data Fetched : Type 0 where
  rejected : (message : String) → Fetched
  response : Response → Fetched

-- What `JSON.parse` gives; the engine words the message.
pub data Parsed : Type 0 where
  value : Json → Parsed
  syntax_error : (message : String) → Parsed

-- `if (res.status === 401 && getToken()) setToken(null)`
unfoldable pub forget_if_unauthorized : ℕ → Storage → Storage
unfolding get_token set_token
forget_if_unauthorized status s =
    if nat_eq status 401 && truthy_option (get_token s) then set_token none s else s

-- `JSON.parse` of the runtime is a parameter.
module _ (parse_json : String → Parsed) where
  unfoldable pub detail_or : String → Parsed → String
  detail_or raw (value json) = elim (string_field json "detail") [ none ↦ raw | some d ↦ d ]
  detail_or raw (syntax_error message) = raw

  unfoldable pub safe_text : Response → String
  unfolding detail_or
  safe_text res = elim res.body [
    | broken message ↦ res.status_text
    | text raw ↦ if truthy raw then detail_or raw (parse_json raw) else res.status_text
  ]

  unfoldable pub json_of : Body → Result Json
  json_of (broken message) = err (error message)
  json_of (text raw) = elim (parse_json raw) [
    | value json ↦ ok json
    | syntax_error message ↦ err (error message)
  ]

  -- The part of `apiGet`, `apiPost` and `apiDelete` behind `await fetch(…)`.
  unfoldable pub receive : Fetched → Storage → Result Json × Storage
  unfolding safe_text json_of forget_if_unauthorized
  receive (rejected message) s = (err (error message), s)
  receive (response res) s =
      if is_ok res.status
      then (json_of res.body, s)
      else (err (api_error res.status (safe_text res)), forget_if_unauthorized res.status s)

  -- `logout`: the answer of the POST decides nothing.
  unfoldable pub finish_logout : Fetched → Storage → Storage
  unfolding receive
  finish_logout answer s = set_token none (receive answer s).1
