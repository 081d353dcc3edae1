-- ===== src/Api/Json.antt =====
-- Values of `JSON.parse`, and what an asynchronous call gives: a value or an exception.
use mcpxy.Prelude.{ℕ, String, Bool, Option, none, some, ◌==◌, if◌then◌else◌}

mutual
  -- A number keeps its text: the dashboard only passes numbers of responses on.
  pub data Json : Type 0 where
    null : Json
    boolean : Bool → Json
    number : String → Json
    string : String → Json
    array : Items → Json
    object : Fields → Json

  pub data Items : Type 0 where
    nil : Items
    cons : Json → Items → Items

  pub data Fields : Type 0 where
    end : Fields
    field : String → Json → Fields → Fields

-- The value of a key; of a repeated one the last value, as in `JSON.parse`.
unfoldable pub field_of : Fields → String → Option Json
field_of end key = none
field_of (field k v rest) key = elim (field_of rest key) [
  | some w ↦ some w
  | none ↦ if k == key then some v else none
]

-- `typeof json.detail === "string"`; a value that has no fields has no detail.
unfoldable pub string_field : Json → String → Option String
unfolding field_of
string_field (object fields) key = elim (field_of fields key) [
  | some v ↦ elim v [ string s ↦ some s | _ ↦ none ]
  | none ↦ none
]
string_field _ key = none

-- What an `await` throws: the client's `ApiError`, or another `Error`.
pub data Thrown : Type 0 where
  api_error : (status : ℕ) → (message : String) → Thrown
  error : (message : String) → Thrown

pub data Result {ℓ} (A : Type ℓ) : Type ℓ where
  ok : A → Result A
  err : Thrown → Result A

-- `e.message`
abbrev pub message_of : Thrown → String
message_of (api_error status message) = message
message_of (error message) = message

-- `e instanceof ApiError ? e.message : fallback`
abbrev pub api_message_or : String → Thrown → String
api_message_or fallback (api_error status message) = message
api_message_or fallback (error message) = fallback

-- `Promise.all` of two calls: both values, or the first exception.
unfoldable pub promise_all {ℓ κ} :
    {A : Type ℓ} {B : Type κ} → (second_first : Bool) → Result A → Result B → Result (A × B)
promise_all second_first (ok a) (ok b) = ok (a, b)
promise_all second_first (ok a) (err f) = err f
promise_all second_first (err e) (ok b) = err e
promise_all second_first (err e) (err f) = err (if second_first then f else e)
