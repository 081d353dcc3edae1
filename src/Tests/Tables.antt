-- ===== src/Tests/Tables.antt =====
-- The pages of the tokens, the mappings and the configuration at concrete inputs.
use mcpxy.Prelude.{String, true, false, none, some, List, [], ◌∷◌, ◌≡◌, ◌⊎◌, refl}
use mcpxy.Api.Json.{Json, object, end, number, ok}
use mcpxy.Tokens
use mcpxy.Tokens.{PatRow}
use mcpxy.Tokens.Dialog.{created_shown}
use mcpxy.Config
use mcpxy.Config.{Script}
use mcpxy.Config.Sending.{Sends, handle-Sends}

abbrev as_text : String → Json
as_text = number

abbrev row : PatRow
row = record {
  id = 3;
  user_id = 1;
  name = "laptop";
  token_prefix = "mcp";
  created_at = "1";
  last_used_at = none;
  expires_at = none;
  revoked_at = none;
  plaintext = some "mcp_secret";
}

abbrev opened_form : Tokens.Page
opened_form = record Tokens.initial_page { show_create = true; token_name = "laptop" }

form_is_shown : Tokens.form_shown opened_form ≡ true
unfolding Tokens.form_shown
form_is_shown = refl

has_secret : Tokens.plaintext_of (some row) ≡ some "mcp_secret"
unfolding Tokens.plaintext_of
has_secret = refl

abbrev meanwhile : List Tokens.Event
meanwhile = Tokens.loaded (ok []) ∷ Tokens.revoke_clicked 2 true ∷ []

created_shown_example :
    Tokens.visible_token (
      Tokens.run as_text
        (Tokens.handle as_text
          (Tokens.run as_text (Tokens.handle as_text opened_form Tokens.submitted) meanwhile)
          (Tokens.create_answered (ok row)))
        meanwhile)
    ≡ some "mcp_secret"
created_shown_example =
    created_shown as_text opened_form row "mcp_secret" meanwhile meanwhile form_is_shown refl
      has_secret (tt, (tt, tt)) (tt, (tt, tt))

abbrev reader : Script
reader = record { parse = λ s. ok (object end); print = λ j. "{}"; is_zero = λ s. false }

handle-Sends_example :
    let p = Config.initial_page in
    let e = Config.apply_clicked true in
    ((Config.handle reader p e).sent ≡ p.sent)
    ⊎ ((call : Config.Call) × Sends reader p e call
        × ((Config.handle reader p e).sent ≡ call ∷ p.sent))
handle-Sends_example = handle-Sends reader Config.initial_page (Config.apply_clicked true)
