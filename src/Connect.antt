-- ===== src/Connect.antt =====
-- frontend/src/pages/Connect.tsx: the snippet by which a client is connected. `JSON.stringify` of
-- a text is a parameter.
pub mod Address
pub mod Snippets
use mcpxy.Prelude.{
  String, Bool, true, false, not, Option, none, some, List, [], ◌∷◌, ◌++◌, ◌==◌, ◌&&◌, ◌<>◌, foldl,
  truthy, is_some, if◌then◌else◌,
}
use mcpxy.Api.Json.{Json, Result, ok, err, message_of}
use mcpxy.Uri.{serialise}

-- The three clients of the tabs.
pub data Tab : Type 0 where
  claude_desktop claude_code chatgpt : Tab

unfoldable pub id_of : Tab → String
id_of claude_desktop = "claude-desktop"
id_of claude_code = "claude-code"
id_of chatgpt = "chatgpt"

unfoldable pub label_of : Tab → String
label_of claude_desktop = "Claude Desktop"
label_of claude_code = "Claude Code"
label_of chatgpt = "ChatGPT"

pub record InstallSnippet : Type 0 where
  pub client : String
  pub supports_auto_install : Bool
  pub entry : Json
  pub merged : Json
  pub config_paths : List String

pub record Page : Type 0 where
  pub tab : Tab
  pub url : String
  pub token_env : String
  pub snippet : Option InstallSnippet
  pub error : Option String
  -- The addresses that were asked for, the latest first.
  pub sent : List String

pub data Event : Type 0 where
  tab_picked : Tab → Event
  url_typed env_typed : String → Event
  -- The answer to any of the requests.
  answered : Result InstallSnippet → Event

unfoldable pub params_of : Page → List (String × String)
params_of p = ("url", p.url) ∷ (if truthy p.token_env then ("token_env", p.token_env) ∷ [] else [])

unfoldable pub install_path : Page → String
unfolding params_of id_of
install_path p = "/admin/api/install/" <> id_of p.tab <> "?" <> serialise (params_of p)

-- The effect, which runs for the first render and when the tab, the address or the variable
-- has changed.
unfoldable pub ask : Page → Page
unfolding install_path
ask p = record p { sent = install_path p ∷ p.sent }

abbrev pub initial_page : (origin : String) → Page
initial_page origin = ask record {
  tab = claude_desktop;
  url = origin;
  token_env = "";
  snippet = none;
  error = none;
  sent = [];
}

unfoldable pub handle : Page → Event → Page
unfolding ask id_of
handle p (tab_picked tab) = if id_of p.tab == id_of tab then p else ask (record p { tab = tab })
handle p (url_typed s) = if p.url == s then p else ask (record p { url = s })
handle p (env_typed s) = if p.token_env == s then p else ask (record p { token_env = s })
handle p (answered (ok snippet)) = record p { snippet = some snippet }
handle p (answered (err e)) = record p { error = some (message_of e) }

abbrev pub run : Page → List Event → Page
run = foldl handle

unfoldable pub install_command : (stringify : String → String) → Page → String
unfolding id_of
install_command stringify p =
    "mcpxy-proxy install --client "
    <> id_of p.tab
    <> " --url "
    <> stringify p.url
    <> (if truthy p.token_env then " --token-env " <> p.token_env else "")

-- The command is shown for a client that can be installed to, and an error while there is no
-- snippet.
unfoldable pub shown_command : (stringify : String → String) → Page → Option String
unfolding install_command
shown_command stringify p = elim p.snippet [
  | none ↦ none
  | some snippet ↦
      if snippet.supports_auto_install then some (install_command stringify p) else none
]

unfoldable pub shown_error : Page → Option String
shown_error p = if is_some p.snippet then none else p.error
