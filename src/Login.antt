-- ===== src/Login.antt =====
-- frontend/src/components/LoginGate.tsx: the form that the dashboard shows to who is not signed in.
-- A submission is two steps, up to its `await` and behind it.
pub mod Outcome
pub mod Page
use mcpxy.Prelude.{
  ℕ, String, Bool, true, false, not, Option, none, some, List, [], ◌∷◌, ◌==◌, any, filter, truthy,
  or_null, or_else, if◌then◌else◌,
}
use mcpxy.Api.Json.{
  Json, string, object, end, field, Thrown, Result, ok, err, message_of, api_message_or,
}
use mcpxy.Api.Client.{
  Storage, set_token, truthy_option, Request, get_request, post_request, Fetched, Parsed, receive,
}

pub record ProvidersResponse : Type 0 where
  pub authy_enabled : Bool
  pub providers : List String

pub record Gate : Type 0 where
  pub providers : Option ProvidersResponse
  pub email : String
  pub password : String
  pub legacy_token : String
  pub error : Option String
  pub busy : Bool
  pub storage : Storage

-- Which of the two forms is shown, and the buttons of the second one.
unfoldable pub is_legacy : Gate → Bool
is_legacy g = elim g.providers [ none ↦ true | some r ↦ not r.authy_enabled ]

unfoldable pub has_local : Gate → Bool
has_local g = elim g.providers [ none ↦ false | some r ↦ any (λ p. p == "local") r.providers ]

unfoldable pub federated : Gate → List String
federated g = elim g.providers [ none ↦ [] | some r ↦ filter (λ p. not (p == "local")) r.providers ]

abbrev started : Gate → Gate
started g = record g { busy = true; error = none }

-- `submitLegacy`: the token is stored first, so that the request carries it.
unfoldable pub start_legacy : Gate → Gate × Request
start_legacy g =
    let stored = set_token (or_null g.legacy_token) g.storage in
    (record (started g) { storage = stored }, get_request "/admin/api/config" stored)

unfoldable pub start_local : Gate → Gate × Request
start_local g = (
  started g,
  post_request "/admin/api/authy/login"
      (some (object (field "email" (string g.email) (field "password" (string g.password) end))))
      g.storage,
)

unfoldable pub start_federated : String → Gate → Gate × Request
start_federated provider g = (
  started g,
  post_request "/admin/api/authy/login/start"
      (some (object (field "provider" (string provider) end))) g.storage,
)

-- `JSON.parse`, and the fields that the answers are read for, are parameters; an answer that has
-- no fields makes the reading throw.
module _ (parse_json : String → Parsed) (token_of url_of : Json → Result (Option String)) where
  -- The second component tells whether `onAuthed` runs.
  end_legacy : Result Json × Storage → Gate → Gate × Bool
  end_legacy (ok data_, storage) g = (record g { busy = false; storage = storage }, true)
  end_legacy (err e, storage) g = (
    record g { busy = false; storage = set_token none storage; error = some (message_of e) },
    false,
  )

  unfoldable pub finish_legacy : Fetched → Gate → Gate × Bool
  unfolding end_legacy
  finish_legacy answer g = end_legacy (receive parse_json answer g.storage) g

  -- What an answer is read for, or what was thrown on the way.
  abbrev read : (Json → Result (Option String)) → Result Json → Result (Option String)
  read field_of_answer (ok data_) = field_of_answer data_
  read field_of_answer (err e) = err e

  end_local : Result (Option String) → Storage → Gate → Gate × Bool
  end_local (ok token) storage g = (
    record g {
      busy = false;
      storage = if truthy_option token then set_token token storage else storage;
    },
    true,
  )
  end_local (err e) storage g = (
    record g { busy = false; storage = storage; error = some (api_message_or "Login failed." e) },
    false,
  )

  unfoldable pub finish_local : Fetched → Gate → Gate × Bool
  unfolding end_local
  finish_local answer g =
      let (result, storage) = receive parse_json answer g.storage in
      end_local (read token_of result) storage g

  -- The second component is the address that the page goes to: that of a missing field is the text
  -- of `undefined`.
  end_federated : Result (Option String) → Storage → Gate → Gate × Option String
  end_federated (ok url) storage g =
      (record g { storage = storage }, some (or_else url "undefined"))
  end_federated (err e) storage g = (
    record g { busy = false; storage = storage; error = some (api_message_or "Login failed." e) },
    none,
  )

  unfoldable pub finish_federated : Fetched → Gate → Gate × Option String
  unfolding end_federated
  finish_federated answer g =
      let (result, storage) = receive parse_json answer g.storage in
      end_federated (read url_of result) storage g
