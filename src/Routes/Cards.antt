-- ===== src/Routes/Cards.antt =====
-- The card of one upstream in Routes.tsx: its badges and its errors. An entry of the snapshot is a
-- parsed answer; the value of a JSON number is a parameter.
use mcpxy.Prelude.{
  ℕ, String, Bool, true, false, Option, none, some, List, [], ◌∷◌, ◌++◌, ◌≡◌, refl, ◌==◌, ◌||◌, ltb,
  truthy, show, length, ◌<>◌, if◌then◌else◌,
}
use mcpxy.Api.Json.{Json, null, array, boolean, number, string, object, field_of, string_field}
use mcpxy.Graph.Scene.{is_healthy, transport_of}

pub data Tone : Type 0 where
  default_tone ok_tone warn_tone err_tone accent_tone : Tone

-- What the card reads of an entry: `discovery` as far as it is there.
pub record Entry : Type 0 where
  pub health : Json
  pub discovery_ok : Option Bool
  pub discovery_error : Option String
  pub tools : List (String × Option String)

abbrev is_text : String → Json → Bool
is_text wanted (string s) = s == wanted
is_text wanted _ = false

abbrev is_true : Json → Bool
is_true (boolean b) = b
is_true _ = false

-- `health?.[key]`
abbrev field_at : Json → String → Option Json
field_at (object fields) key = field_of fields key
field_at _ key = none

unfoldable pub health_ok : Json → Bool
health_ok health =
    elim (field_at health "status") [ none ↦ false | some v ↦ is_text "ok" v ]
    || elim (field_at health "running") [ none ↦ false | some v ↦ is_true v ]

-- `s || null`
abbrev non_empty : Option String → Option String
non_empty none = none
non_empty (some s) = if truthy s then some s else none

module _ (number_value : String → ℕ) where
  -- `(health?.restart_attempts as number) || 0`
  unfoldable pub restart_attempts : Json → ℕ
  restart_attempts health = elim (field_at health "restart_attempts") [
    | some (number text) ↦ number_value text
    | _ ↦ 0
  ]

  abbrev restart_badge : ℕ → List (Tone × String)
  restart_badge n =
      if ltb 0 n
      then (warn_tone, show n <> (if ltb 1 n then " restarts" else " restart")) ∷ []
      else []

  abbrev discovery_badge : Option Bool → ℕ → List (Tone × String)
  discovery_badge none tools = []
  discovery_badge (some true) tools = (accent_tone, show tools <> " tools") ∷ []
  discovery_badge (some false) tools = (warn_tone, "discovery failed") ∷ []

  abbrev transport_badge : Option String → List (Tone × String)
  transport_badge none = []
  transport_badge (some t) = if truthy t then (default_tone, t) ∷ [] else []

  unfoldable pub badges : Entry → List (Tone × String)
  unfolding health_ok restart_attempts
  badges e =
      (if health_ok e.health then (ok_tone, "healthy") else (err_tone, "unhealthy"))
      ∷ (transport_badge (string_field e.health "type")
          ++ (discovery_badge e.discovery_ok (length e.tools)
              ++ restart_badge (restart_attempts e.health)))

-- The lines of the error box: the last error, and the error of the discovery unless it is the same.
unfoldable pub error_lines : Entry → List String
error_lines e =
    let last_error = non_empty (string_field e.health "last_error") in
    let discovery_error = non_empty e.discovery_error in
    elim last_error [
      | none ↦ elim discovery_error [ none ↦ [] | some d ↦ ("discovery: " <> d) ∷ [] ]
      | some l ↦ elim discovery_error [
        | none ↦ l ∷ []
        | some d ↦ if d == l then l ∷ [] else l ∷ ("discovery: " <> d) ∷ []
      ]
    ]

-- The card of an upstream and its node in the graph agree on whether it is healthy, and on the text
-- of its transport.
pub health_ok-is_healthy :
    (health : Json)
    → (health_ok health ≡ is_healthy (some (record { health = health })))
      × (string_field health "type" ≡ transport_of (some (record { health = health })))
unfolding health_ok is_healthy transport_of
health_ok-is_healthy (object fields) = (refl, refl)
health_ok-is_healthy null = (refl, refl)
health_ok-is_healthy (boolean b) = (refl, refl)
health_ok-is_healthy (number t) = (refl, refl)
health_ok-is_healthy (string t) = (refl, refl)
health_ok-is_healthy (array items) = (refl, refl)
