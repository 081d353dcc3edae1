-- ===== src/Onboarding/Requests.antt =====
-- `onboardingPost` and `onboardingGet` of Onboarding.tsx: requests without a token, and their answers.
use mcpxy.Prelude.{
  ℕ, String, Bool, true, false, Option, none, some, [], ◌∷◌, ◌≡◌, ◌⊎◌, inl, inr, refl, sym, ◌∙◌,
  Option-cases, truthy, Bool-cases, if◌then◌else◌,
}
use mcpxy.Api.Json.{Json, object, end, string_field, api_error, error, Result, err}
use mcpxy.Api.Client.{
  Storage, get, post, Request, text, broken, is_ok, Response, Fetched, rejected, response, Parsed,
  value, syntax_error, json_of, safe_text, receive, detail_or,
}

unfoldable pub onboarding_post : String → Option Json → Request
onboarding_post path body = record {
  method = post;
  path = path;
  headers = ("Content-Type", "application/json") ∷ ("Accept", "application/json") ∷ [];
  include_credentials = false;
  body = elim body [ none ↦ some (object end) | some b ↦ some b ];
}

unfoldable pub onboarding_get : String → Request
onboarding_get path = record {
  method = get;
  path = path;
  headers = ("Accept", "application/json") ∷ [];
  include_credentials = false;
  body = none;
}

Parsed-cases :
    (p : Parsed)
    → ((message : String) × (p ≡ syntax_error message)) ⊎ ((json : Json) × (p ≡ value json))
Parsed-cases (value json) = inr (json, refl)
Parsed-cases (syntax_error message) = inl (message, refl)

module _ (parse_json : String → Parsed) where
  -- What both throw for a response that is no success; only the POST has a fallback for an empty
  -- text.
  unfoldable pub refusal : (fallback : Bool) → Response → Result Json
  refusal fallback res = elim res.body [
    | broken message ↦ err (error message)
    | text raw ↦ err (
        api_error res.status
          (if truthy raw then raw else if fallback then res.status_text else raw))
  ]

  unfoldable pub received : (fallback : Bool) → Fetched → Result Json
  unfolding refusal json_of
  received fallback (rejected message) = err (error message)
  received fallback (response res) =
      if is_ok res.status then json_of parse_json res.body else refusal fallback res

  abbrev pub post_received : Fetched → Result Json
  post_received = received true

  abbrev pub get_received : Fetched → Result Json
  get_received = received false

  abbrev with_text : ℕ → String → String → Fetched
  with_text status status_text raw =
      response (record { status = status; status_text = status_text; body = text raw })

  refused_others :
      (s : Storage) (status : ℕ) (status_text raw shown : String)
      → is_ok status ≡ false
      → safe_text parse_json
          (record { status = status; status_text = status_text; body = text raw })
        ≡ shown
      → (receive parse_json (with_text status status_text raw) s).0 ≡ err (api_error status shown)
  unfolding receive
  refused_others s status status_text raw shown r e = rw (r, receive, e) refl

  refused_own :
      (status : ℕ) (status_text raw : String)
      → is_ok status ≡ false
      → post_received (with_text status status_text raw)
        ≡ err (api_error status (if truthy raw then raw else status_text))
  unfolding received refusal
  refused_own status status_text raw r = rw r refl

  -- The text that the client makes of a text, by what it parses to.
  safe_text-cases :
      (status : ℕ) (status_text raw : String)
      → let shown =
          safe_text parse_json
            (record { status = status; status_text = status_text; body = text raw }) in
        (shown ≡ (if truthy raw then raw else status_text))
        ⊎ ((json : Json) × (detail : String) × (truthy raw ≡ true)
            × (parse_json raw ≡ value json)
            × (string_field json "detail" ≡ some detail)
            × (shown ≡ detail))
  unfolding safe_text
  safe_text-cases status status_text raw = elim (Bool-cases (truthy raw)) [
    | inr empty ↦ inl (rw (empty, safe_text) refl)
    | inl filled ↦ elim (Parsed-cases (parse_json raw)) [
      | inl (message, e) ↦ inl (rw (filled, safe_text, e) refl)
      | inr (json, e) ↦ elim (Option-cases (string_field json "detail")) [
        | inl f ↦ inl (rw (filled, safe_text, e, detail_or, f) refl)
        | inr (detail, f) ↦
            inr (json, detail, filled, e, f, rw (filled, safe_text, e, detail_or, f) refl)
      ]
    ]
  ]

  -- The wizard's POST against `apiPost` for a response with a text: both give the same value or the
  -- same error, except where a refusal is JSON with a `detail` that is text; there the wizard shows
  -- the whole JSON text, and the client the detail.
  pub post_received-receive :
      (s : Storage) (status : ℕ) (status_text raw : String)
      → let answer =
          response (record { status = status; status_text = status_text; body = text raw }) in
        let own = post_received answer in
        let others = (receive parse_json answer s).0 in
        (own ≡ others)
        ⊎ ((json : Json) × (detail : String) × (parse_json raw ≡ value json)
            × (string_field json "detail" ≡ some detail)
            × (own ≡ err (api_error status raw))
            × (others ≡ err (api_error status detail)))
  unfolding received receive
  post_received-receive s status status_text raw = elim (Bool-cases (is_ok status)) [
    | inl success ↦ inl (rw success refl)
    | inr refused ↦ elim (safe_text-cases status status_text raw) [
      | inl same ↦ inl (
          refused_own status status_text raw refused
          ∙ sym (refused_others s status status_text raw _ refused same))
      | inr (json, detail, filled, parsed, found, shown) ↦ inr (
        json,
        detail,
        parsed,
        found,
        refused_own status status_text raw refused ∙ rw filled refl,
        refused_others s status status_text raw detail refused shown,
      )
    ]
  ]
