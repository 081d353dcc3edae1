-- ===== src/Tokens.antt =====
-- frontend/src/pages/Tokens.tsx: the personal access tokens. Timestamps keep the text of the
-- number, and `parseInt(s, 10)` as `JSON.stringify` writes it is a parameter.
pub mod Dialog
pub mod Revoking
use mcpxy.Prelude.{
  ℕ, String, Bool, true, false, not, Option, none, some, List, [], ◌∷◌, foldl, ◌&&◌, truthy,
  is_some, if◌then◌else◌,
}
use mcpxy.Api.Json.{Json, null, Result, ok, err, message_of, api_message_or}

pub record PatRow : Type 0 where
  pub id : ℕ
  pub user_id : ℕ
  pub name : String
  pub token_prefix : String
  pub created_at : String
  pub last_used_at : Option String
  pub expires_at : Option String
  pub revoked_at : Option String
  pub plaintext : Option String

-- The calls under `/admin/api/pats`.
pub data Call : Type 0 where
  list_pats : Call
  create_pat : (name : String) (ttl_days : Json) → Call
  revoke_pat : (id : ℕ) → Call

pub record Page : Type 0 where
  pub pats : List PatRow
  pub error : Option String
  pub show_create : Bool
  pub token_name : String
  pub ttl_days : String
  pub created : Option PatRow
  pub busy : Bool
  -- What the page has sent, the latest first; it starts by asking for the tokens.
  pub sent : List Call

pub data Event : Type 0 where
  loaded : Result (List PatRow) → Event
  new_clicked submitted close_clicked : Event
  name_typed ttl_typed : String → Event
  create_answered : Result PatRow → Event
  revoke_clicked : (id : ℕ) (confirmed : Bool) → Event
  revoke_answered : Result Json → Event

abbrev pub initial_page : Page
initial_page = record {
  pats = [];
  error = none;
  show_create = false;
  token_name = "";
  ttl_days = "";
  created = none;
  busy = false;
  sent = list_pats ∷ [];
}

-- `created && created.plaintext`
unfoldable pub plaintext_of : Option PatRow → Option String
plaintext_of none = none
plaintext_of (some row) = elim row.plaintext [
  | none ↦ none
  | some text ↦ if truthy text then some text else none
]

-- The token that the dialog shows.
unfoldable pub visible_token : Page → Option String
unfolding plaintext_of
visible_token p = if p.show_create then plaintext_of p.created else none

unfoldable pub form_shown : Page → Bool
unfolding plaintext_of
form_shown p = p.show_create && not (is_some (plaintext_of p.created))

module _ (parse_int : String → Json) where
  unfoldable pub handle_create : Page → Page
  handle_create p = record p {
    busy = true;
    error = none;
    sent =
        create_pat (if truthy p.token_name then p.token_name else "Untitled")
          (if truthy p.ttl_days then parse_int p.ttl_days else null)
        ∷ p.sent;
  }

  unfoldable pub finish_create : Result PatRow → Page → Page
  finish_create (ok row) p = record p {
    created = some row;
    busy = false;
    sent = list_pats ∷ p.sent;
  }
  finish_create (err e) p = record p {
    error = some (api_message_or "Create failed" e);
    busy = false;
  }

  -- The fields and the button of the form are there while it is shown.
  unfoldable pub handle : Page → Event → Page
  unfolding handle_create finish_create form_shown
  handle p (loaded (ok rows)) = record p { pats = rows }
  handle p (loaded (err e)) = record p { error = some (message_of e) }
  handle p new_clicked = record p {
    show_create = true;
    created = none;
    token_name = "";
    ttl_days = "";
  }
  handle p submitted = if form_shown p && not p.busy then handle_create p else p
  handle p close_clicked = record p { show_create = false }
  handle p (name_typed s) = if form_shown p then record p { token_name = s } else p
  handle p (ttl_typed s) = if form_shown p then record p { ttl_days = s } else p
  handle p (create_answered answer) = if p.busy then finish_create answer p else p
  handle p (revoke_clicked id confirmed) =
      if confirmed then record p { sent = revoke_pat id ∷ p.sent } else p
  handle p (revoke_answered (ok body)) = record p { sent = list_pats ∷ p.sent }
  handle p (revoke_answered (err e)) = record p { error = some (api_message_or "Revoke failed" e) }

  abbrev pub run : Page → List Event → Page
  run = foldl handle
