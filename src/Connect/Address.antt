-- ===== src/Connect/Address.antt =====
-- The address from which the page asks for a snippet.
use mcpxy.Prelude.{String, ◌≡◌, refl, ap, ◌∙◌, map, ◌<>◌}
use mcpxy.Uri.{serialise}
use mcpxy.Uri.Query.{
  parse_query, pair_bytes, behind, behind-prefix, behind-skip, ends_in, includes_code,
  parse_query-serialise,
}
use mcpxy.Connect.{Page, Tab, claude_desktop, claude_code, chatgpt, id_of, params_of, install_path}

behind_install :
    (tab : Tab) (query : String)
    → behind b'?' ("/admin/api/install/" <> id_of tab <> "?" <> query) ≡ query
unfolding ends_in includes_code id_of
behind_install claude_desktop query =
    behind-skip b'?' "/admin/api/install/" ("claude-desktop" <> "?" <> query) refl
    ∙ behind-skip b'?' "claude-desktop" ("?" <> query) refl
    ∙ behind-prefix b'?' "?" query refl
behind_install claude_code query =
    behind-skip b'?' "/admin/api/install/" ("claude-code" <> "?" <> query) refl
    ∙ behind-skip b'?' "claude-code" ("?" <> query) refl
    ∙ behind-prefix b'?' "?" query refl
behind_install chatgpt query =
    behind-skip b'?' "/admin/api/install/" ("chatgpt" <> "?" <> query) refl
    ∙ behind-skip b'?' "chatgpt" ("?" <> query) refl
    ∙ behind-prefix b'?' "?" query refl

-- The query of a snippet's address reads as the typed address and, if one is typed, the variable,
-- each as the bytes of its text, whatever characters they have.
pub parse_query-install_path :
    (p : Page) → parse_query (behind b'?' (install_path p)) ≡ map pair_bytes (params_of p)
unfolding install_path
parse_query-install_path p =
    ap parse_query (behind_install p.tab (serialise (params_of p)))
    ∙ parse_query-serialise (params_of p)
