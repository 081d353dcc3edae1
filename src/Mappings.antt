-- ===== src/Mappings.antt =====
-- frontend/src/pages/TokenMappings.tsx: the tokens that stand for users at upstreams. Timestamps
-- keep the text of the number, and `parseInt(s, 10)` as `JSON.stringify` writes it is a parameter.
pub mod Emails
pub mod Saving
use mcpxy.Prelude.{
  ℕ, String, Bool, true, false, not, Option, none, some, List, [], ◌∷◌, foldl, ◌&&◌, ◌<>◌, truthy,
  nat_eq, show, if◌then◌else◌,
}
use mcpxy.Api.Json.{Json, Result, ok, err, message_of, api_message_or, promise_all}
use mcpxy.Users.{UserRow}

pub record TokenMappingRow : Type 0 where
  pub id : ℕ
  pub upstream : String
  pub user_id : ℕ
  pub description : String
  pub created_at : String
  pub updated_at : String
  pub token_preview : String

pub data Call : Type 0 where
  list_mappings list_users : Call
  create_mapping :
      (upstream : String) (user_id : Json) (upstream_token : String) (description : String) → Call
  delete_mapping : (id : ℕ) → Call

pub record Page : Type 0 where
  pub mappings : List TokenMappingRow
  pub users : List UserRow
  pub error : Option String
  pub show_create : Bool
  pub upstream : String
  pub user_id : String
  pub upstream_token : String
  pub description : String
  pub busy : Bool
  -- What the page has sent, the latest first.
  pub sent : List Call

pub data Event : Type 0 where
  -- Both answers to one `load`, and which of them came first.
  loaded : (users_first : Bool) → Result (List TokenMappingRow) → Result (List UserRow) → Event
  add_clicked submitted cancel_clicked : Event
  upstream_typed user_picked token_typed description_typed : String → Event
  create_answered : Result TokenMappingRow → Event
  delete_clicked : (id : ℕ) (confirmed : Bool) → Event
  delete_answered : Result Json → Event

abbrev pub sent_load : List Call → List Call
sent_load sent = list_users ∷ list_mappings ∷ sent

abbrev pub initial_page : Page
initial_page = record {
  mappings = [];
  users = [];
  error = none;
  show_create = false;
  upstream = "";
  user_id = "";
  upstream_token = "";
  description = "";
  busy = false;
  sent = sent_load [];
}

unfoldable pub load : Result (List TokenMappingRow × List UserRow) → Page → Page
load (ok (mappings, users)) p = record p { mappings = mappings; users = users }
load (err e) p = record p { error = some (message_of e) }

-- `users.find((u) => u.id === uid)?.email || …`
unfoldable pub user_email : List UserRow → ℕ → String
user_email [] uid = "user#" <> show uid
user_email (u ∷ users) uid =
    if nat_eq u.id uid
    then if truthy u.email then u.email else "user#" <> show uid
    else user_email users uid

-- The three fields that the form requires.
unfoldable pub can_submit : Page → Bool
can_submit p =
    p.show_create
    && (truthy p.upstream && (truthy p.user_id && (truthy p.upstream_token && not p.busy)))

module _ (parse_int : String → Json) where
  unfoldable pub create_call : Page → Call
  create_call p = create_mapping p.upstream (parse_int p.user_id) p.upstream_token p.description

  unfoldable pub handle_create : Page → Page
  unfolding create_call
  handle_create p = record p { busy = true; error = none; sent = create_call p ∷ p.sent }

  unfoldable pub finish_create : Result TokenMappingRow → Page → Page
  finish_create (ok row) p = record p {
    show_create = false;
    upstream = "";
    user_id = "";
    upstream_token = "";
    description = "";
    busy = false;
    sent = sent_load p.sent;
  }
  finish_create (err e) p = record p {
    error = some (api_message_or "Create failed" e);
    busy = false;
  }

  unfoldable pub handle : Page → Event → Page
  unfolding promise_all load can_submit handle_create finish_create
  handle p (loaded users_first mappings users) = load (promise_all users_first mappings users) p
  handle p add_clicked = record p { show_create = true }
  handle p submitted = if can_submit p then handle_create p else p
  handle p cancel_clicked = record p { show_create = false }
  handle p (upstream_typed s) = if p.show_create then record p { upstream = s } else p
  handle p (user_picked s) = if p.show_create then record p { user_id = s } else p
  handle p (token_typed s) = if p.show_create then record p { upstream_token = s } else p
  handle p (description_typed s) = if p.show_create then record p { description = s } else p
  handle p (create_answered answer) = if p.busy then finish_create answer p else p
  handle p (delete_clicked id confirmed) =
      if confirmed then record p { sent = delete_mapping id ∷ p.sent } else p
  handle p (delete_answered (ok body)) = record p { sent = sent_load p.sent }
  handle p (delete_answered (err e)) = record p { error = some (api_message_or "Delete failed" e) }

  abbrev pub run : Page → List Event → Page
  run = foldl handle
