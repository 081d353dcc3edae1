-- ===== src/Onboarding/Storage/Controls.antt =====
-- The body of `StorageStep` in Onboarding.tsx: what the step shows, and what of it is sent.
use mcpxy.Prelude.{
  String, Bool, true, false, not, Option, none, some, List, [], ◌∷◌, ◌≡◌, refl, arith, ◌&&◌, ◌||◌,
  ◌==◌, ◌<>◌, any, truthy, or_null, Bool-cases, inl, inr, sym, ◌∙◌, if◌then◌else◌,
}
use mcpxy.Numbers.{Numbers}
use mcpxy.Api.Types.{OnboardingDatabaseInfo}
use mcpxy.Onboarding.Storage.{
  DialectChoice, sqlite, postgresql, mysql, is_sqlite, dialect_key, passed, failed, StorageForm,
  edit, pick_dialect, set_raw_url, available, driver_missing, save_disabled, target_of, port_number,
  by_fields, build_body,
}

pub data Control : Type 0 where
  dialect_button : (label : String) (disabled selected : Bool) → Control
  input : (label value : String) (disabled : Bool) → Control
  checkbox : (label : String) (checked : Bool) → Control
  hint : (message : String) → Control

-- DIALECT_LABELS
unfoldable pub dialect_label : DialectChoice → String
dialect_label sqlite = "SQLite"
dialect_label postgresql = "PostgreSQL"
dialect_label mysql = "MySQL / MariaDB"

-- DIALECT_EXTRA_HINT, by its first words.
unfoldable pub dialect_hint : DialectChoice → String
dialect_hint sqlite = ""
dialect_hint postgresql = "psycopg2 driver not installed"
dialect_hint mysql = "PyMySQL driver not installed"

abbrev same_dialect : DialectChoice → DialectChoice → Bool
same_dialect sqlite sqlite = true
same_dialect postgresql postgresql = true
same_dialect mysql mysql = true
same_dialect _ _ = false

-- One of the three buttons.
unfoldable pub button_of : Option OnboardingDatabaseInfo → StorageForm → DialectChoice → Control
unfolding dialect_label is_sqlite available dialect_key
button_of info f d =
    dialect_button (dialect_label d)
      (not (is_sqlite d) && not (any (λ e. e == dialect_key d) (available info)))
      (same_dialect f.dialect d && not f.using_raw)

unfoldable pub field_controls : StorageForm → List Control
field_controls f =
    input "Host" f.host f.using_raw
    ∷ input "Port" f.port f.using_raw
    ∷ input "Database" f.database f.using_raw
    ∷ input "SSL mode (optional)" f.sslmode f.using_raw
    ∷ input "User" f.user f.using_raw
    ∷ input "Password" f.password f.using_raw
    ∷ input "Paste a SQLAlchemy URL instead" f.raw_url false
    ∷ checkbox "I have my Fernet key ready" f.ack
    ∷ []

unfoldable pub remote_controls : Option OnboardingDatabaseInfo → StorageForm → List Control
unfolding driver_missing is_sqlite dialect_hint field_controls
remote_controls info f =
    if driver_missing info f
    then hint (dialect_hint f.dialect) ∷ []
    else if is_sqlite f.dialect
    then []
    else field_controls f

unfoldable pub controls : Option OnboardingDatabaseInfo → StorageForm → List Control
unfolding button_of remote_controls
controls info f =
    button_of info f sqlite
    ∷ button_of info f postgresql
    ∷ button_of info f mysql
    ∷ remote_controls info f

-- The box of the last test.
unfoldable pub test_box : StorageForm → Option String
test_box f = elim f.test_result [
  | none ↦ none
  | some (passed dialect url_masked) ↦ some (
      "Connection OK"
      <> (elim dialect [ none ↦ "" | some d ↦ if truthy d then " (" <> d <> ")" else "" ]
          <> elim url_masked [ none ↦ "" | some u ↦ if truthy u then " — " <> u else "" ]))
  | some (failed message) ↦ some ("Connection failed: " <> message)
]

-- `disabled` of the save button.
unfoldable pub save_blocked : Option OnboardingDatabaseInfo → Bool → StorageForm → Bool
unfolding save_disabled driver_missing
save_blocked info busy f = save_disabled busy f || driver_missing info f

same_buttons :
    (info : Option OnboardingDatabaseInfo) (f g : StorageForm)
    → f.using_raw ≡ false
    → g.using_raw ≡ false
    → button_of info f sqlite ≡ button_of info g sqlite
    → button_of info f postgresql ≡ button_of info g postgresql
    → f.dialect ≡ g.dialect
unfolding button_of
same_buttons info f g u v b c = ground arith

same_remote :
    (info : Option OnboardingDatabaseInfo) (f g : StorageForm)
    → is_sqlite f.dialect ≡ false
    → driver_missing info f ≡ false
    → remote_controls info f ≡ remote_controls info g
    → field_controls f ≡ field_controls g
unfolding remote_controls field_controls
same_remote info f g s d h = ground arith

module _ (numbers : Numbers) where
  same_raw :
      (f g : StorageForm)
      → f.using_raw ≡ true
      → field_controls f ≡ field_controls g
      → build_body numbers f ≡ build_body numbers g
  unfolding field_controls build_body target_of
  same_raw f g u h = ground arith

  same_typed :
      (f g : StorageForm)
      → f.using_raw ≡ false
      → f.dialect ≡ g.dialect
      → field_controls f ≡ field_controls g
      → build_body numbers f ≡ build_body numbers g
  unfolding field_controls build_body target_of
  same_typed f g u d h = ground arith

  same_using_raw :
      (f g : StorageForm) → field_controls f ≡ field_controls g → f.using_raw ≡ g.using_raw
  unfolding field_controls
  same_using_raw f g h = ground arith

  -- For a remote dialect with its driver, what the step sends is what it shows: two states that show
  -- the same controls send the same request, to a pasted URL without regard to the dialect.
  pub build_body-controls :
      (info : Option OnboardingDatabaseInfo) (f g : StorageForm)
      → is_sqlite f.dialect ≡ false
      → driver_missing info f ≡ false
      → controls info f ≡ controls info g
      → build_body numbers f ≡ build_body numbers g
  unfolding controls
  build_body-controls info f g s d h =
      let rest : remote_controls info f ≡ remote_controls info g = ground arith in
      let fields = same_remote info f g s d rest in
      let first : button_of info f sqlite ≡ button_of info g sqlite = ground arith in
      let second : button_of info f postgresql ≡ button_of info g postgresql = ground arith in
      elim (Bool-cases f.using_raw) [
        | inl raw ↦ same_raw f g raw fields
        | inr typed ↦
            let other = sym (same_using_raw f g fields) ∙ typed in
            same_typed f g typed (same_buttons info f g typed other first second) fields
      ]

  -- A pasted URL is shown on and not used any more once a dialect is picked, though
  -- the step says that it overrides the fields when set.
  pasted_url_ignored :
      (f : StorageForm) (url : String) (next : DialectChoice)
      → let g = edit (edit f (set_raw_url url)) (pick_dialect next) in
        (g.raw_url ≡ url)
        × (target_of numbers g
            ≡ by_fields next f.host
                (port_number numbers g.port)
                f.database
                f.user
                f.password
                (or_null f.sslmode))
  unfolding edit target_of
  pasted_url_ignored f url next = (refl, refl)
