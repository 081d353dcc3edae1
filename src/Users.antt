-- ===== src/Users.antt =====
-- frontend/src/pages/Users.tsx: the users, and the dialog that invites one. Timestamps keep the
-- text of the number.
pub mod Inviting
use mcpxy.Prelude.{
  ℕ, String, Bool, true, false, not, Option, none, some, List, [], ◌∷◌, foldl, ◌&&◌, is_some,
  if◌then◌else◌,
}
use mcpxy.Api.Json.{Json, Result, ok, err, message_of, api_message_or}

pub record UserRow : Type 0 where
  pub id : ℕ
  pub email : String
  pub username : Option String
  pub name : Option String
  pub provider : String
  pub role : String
  pub created_at : String
  pub invited_by : Option ℕ
  pub activated_at : Option String
  pub disabled_at : Option String

pub record InviteResponse : Type 0 where
  pub id : ℕ
  pub email : String
  pub role : String
  pub created_at : String
  pub expires_at : String
  pub consumed_at : Option String
  pub invited_by : Option ℕ
  pub plaintext_token : Option String

pub data Role : Type 0 where
  member admin : Role

-- The calls under `/admin/api/users`.
pub data Call : Type 0 where
  list_users : Call
  invite_user : (email : String) (role : Role) → Call
  delete_user : (id : ℕ) → Call

pub record Page : Type 0 where
  pub users : List UserRow
  pub error : Option String
  pub show_invite : Bool
  pub invite_email : String
  pub invite_role : Role
  pub invite_result : Option InviteResponse
  pub busy : Bool
  -- What the page has sent, the latest first; it starts by asking for the users.
  pub sent : List Call

pub data Event : Type 0 where
  loaded : Result (List UserRow) → Event
  invite_clicked submitted close_clicked : Event
  email_typed : String → Event
  role_picked : Role → Event
  invite_answered : Result InviteResponse → Event
  delete_clicked : (id : ℕ) (confirmed : Bool) → Event
  delete_answered : Result Json → Event

abbrev pub initial_page : Page
initial_page = record {
  users = [];
  error = none;
  show_invite = false;
  invite_email = "";
  invite_role = member;
  invite_result = none;
  busy = false;
  sent = list_users ∷ [];
}

-- The invitation whose token the dialog shows, and whether it shows the form instead.
unfoldable pub visible_invite : Page → Option InviteResponse
visible_invite p = if p.show_invite then p.invite_result else none

unfoldable pub form_shown : Page → Bool
form_shown p = p.show_invite && not (is_some p.invite_result)

unfoldable pub handle_invite : Page → Page
handle_invite p = record p {
  busy = true;
  error = none;
  sent = invite_user p.invite_email p.invite_role ∷ p.sent;
}

unfoldable pub finish_invite : Result InviteResponse → Page → Page
finish_invite (ok invite) p = record p {
  invite_result = some invite;
  busy = false;
  sent = list_users ∷ p.sent;
}
finish_invite (err e) p = record p { error = some (api_message_or "Invite failed" e); busy = false }

-- The fields and the button of the form are there while it is shown. Whether the browser takes
-- the email for one is part of the event.
unfoldable pub handle : Page → Event → Page
unfolding handle_invite finish_invite form_shown
handle p (loaded (ok rows)) = record p { users = rows }
handle p (loaded (err e)) = record p { error = some (message_of e) }
handle p invite_clicked = record p { show_invite = true; invite_result = none; invite_email = "" }
handle p submitted = if form_shown p && not p.busy then handle_invite p else p
handle p close_clicked = record p { show_invite = false }
handle p (email_typed s) = if form_shown p then record p { invite_email = s } else p
handle p (role_picked role) = if form_shown p then record p { invite_role = role } else p
handle p (invite_answered answer) = if p.busy then finish_invite answer p else p
handle p (delete_clicked id confirmed) =
    if confirmed then record p { sent = delete_user id ∷ p.sent } else p
handle p (delete_answered (ok body)) = record p { sent = list_users ∷ p.sent }
handle p (delete_answered (err e)) = record p { error = some (api_message_or "Delete failed" e) }

abbrev pub run : Page → List Event → Page
run = foldl handle
