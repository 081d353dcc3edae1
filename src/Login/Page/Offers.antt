-- ===== src/Login/Page/Offers.antt =====
-- What the card of LoginGate.tsx offers, and what the server names.
use mcpxy.Prelude.{String, ◌==◌, if◌then◌else◌}
use mcpxy.Login.Page.{Attempt, with_password, with_provider}

-- Which way to submit belongs to a provider's name.
abbrev pub attempt_of : String → Attempt
attempt_of provider = if provider == "local" then with_password else with_provider provider
