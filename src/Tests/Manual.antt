-- ===== src/Tests/Manual.antt =====
-- The dialog at concrete inputs.
use mcpxy.Prelude.{List, [], ◌∷◌, ◌≡◌, true, false, ◌↔◌}
use mcpxy.Api.Types.{http}
use mcpxy.Manual.KeyValues.{KeyValue, empty_kv}
use mcpxy.Manual.Name.{name_valid}
use mcpxy.Manual.Payload.{Form, bearer_auth, build_payload, can_submit}
use mcpxy.Manual.Complete.{IsComplete, can_submit_iff}
use mcpxy.Tests.Values.{port_numbers}

abbrev rows : List KeyValue
rows = record { key = " A "; value = "1" } ∷ empty_kv ∷ record { key = "A"; value = "2" } ∷ []

abbrev form : Form
form = record {
  name = "github";
  transport = http;
  command = "";
  args_text = "";
  stdio_env = rows;
  queue_size = "";
  url = "https://example.com/mcp";
  timeout_s = "";
  http_headers = rows;
  auth_type = bearer_auth;
  bearer_token = "secret";
  api_key_header = "";
  api_key_value = "";
  basic_user = "";
  basic_pass = "";
  oauth_issuer = "";
  oauth_auth_endpoint = "";
  oauth_token_endpoint = "";
  oauth_client_id = "";
  oauth_client_secret = "";
  oauth_scopes = "";
  oauth_dynamic_reg = false;
}

can_submit_iff_example :
    (can_submit form ≡ true)
    ↔ ((name_valid form.name ≡ true) × IsComplete port_numbers (build_payload port_numbers form))
can_submit_iff_example = can_submit_iff port_numbers form
