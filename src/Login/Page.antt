-- ===== src/Login/Page.antt =====
-- `LoginGate` of LoginGate.tsx as it runs: the request for the providers, the card that is shown, and
-- one submission at a time, since the buttons are disabled while one is on its way.
pub mod Offers
use mcpxy.Prelude.{
  String, Bool, true, false, not, Option, none, some, List, [], ◌∷◌, ◌≡◌, ◌⊎◌, inl, inr, refl, ◌∙◌,
  arith, ◌&&◌, ◌||◌, ◌==◌, eq_iff, any, filter, truthy, length, foldl, is_some, ltb, Bool-cases,
  Option-cases, if◌then◌else◌,
}
use mcpxy.Api.Json.{Json, null, boolean, string, Result, ok, err}
use mcpxy.Api.Sse.{starts_with}
use mcpxy.Api.Client.{
  Storage, Fetched, rejected, response, text, broken, Parsed, value, syntax_error, is_ok, receive,
}
use mcpxy.Login.{
  ProvidersResponse, Gate, is_legacy, has_local, federated, start_legacy, start_local,
  start_federated, end_legacy, end_local, read, finish_legacy, finish_local, end_federated,
  finish_federated,
}

-- The text of a federated button.
unfoldable pub label_of : String → String
unfolding starts_with
label_of provider =
    if provider == "google"
    then "Google"
    else if provider == "m365"
    then "Microsoft 365"
    else if starts_with provider "sso"
    then "SSO"
    else provider

-- The form for a token; or the form for an email, where it is offered, and the buttons below it.
pub data Card : Type 0 where
  legacy_form : Card
  sign_in : (local_form divider : Bool) (buttons : List String) → Card

unfoldable pub card_of : Gate → Card
unfolding is_legacy has_local federated
card_of g =
    if is_legacy g
    then legacy_form
    else sign_in (has_local g) (has_local g && ltb 0 (length (federated g))) (federated g)

-- What can be submitted.
pub data Attempt : Type 0 where
  with_token with_password : Attempt
  with_provider : (provider : String) → Attempt

-- The way to submit is on the card.
unfoldable pub is_offered : Card → Attempt → Bool
is_offered legacy_form with_token = true
is_offered (sign_in local_form divider buttons) with_password = local_form
is_offered (sign_in local_form divider buttons) (with_provider provider) =
    any (λ p. p == provider) buttons
is_offered card attempt = false

pub record Session : Type 0 where
  pub gate : Gate
  pub in_flight : Option Attempt
  -- `onAuthed` has run; the page has been sent to an address.
  pub authed : Bool
  pub left : Bool

pub data Event : Type 0 where
  providers_answered : Fetched → Event
  email_typed password_typed token_typed : String → Event
  submitted : Attempt → Event
  answered : Fetched → Event

unfoldable pub start : Attempt → Gate → Gate
start with_token g = (start_legacy g).0
start with_password g = (start_local g).0
start (with_provider provider) g = (start_federated provider g).0

unfoldable pub submit : Attempt → Session → Session
unfolding card_of is_offered
submit attempt s =
    if not s.gate.busy && is_offered (card_of s.gate) attempt
    then record s { gate = start attempt s.gate; in_flight = some attempt }
    else s

-- `if (data)`
abbrev is_truthy : Json → Bool
is_truthy null = false
is_truthy (boolean b) = b
is_truthy (string t) = truthy t
is_truthy _ = true

module _ (parse_json : String → Parsed) (token_of url_of : Json → Result (Option String))
    (as_providers : Json → ProvidersResponse) where
  unfoldable pub set_providers : Fetched → Gate → Gate
  set_providers (rejected message) g = g
  set_providers (response res) g =
      if is_ok res.status
      then elim res.body [
        | broken message ↦ g
        | text raw ↦ elim (parse_json raw) [
          | syntax_error message ↦ g
          | value json ↦
              if is_truthy json then record g { providers = some (as_providers json) } else g
        ]
      ]
      else g

  -- The answer to the submission that is on its way, and whether `window.location.href` was set.
  unfoldable pub settle : Fetched → Attempt → Session → Session
  settle answer with_token s =
      let (gate, done) = finish_legacy parse_json token_of url_of answer s.gate in
      record s { gate = gate; in_flight = none; authed = s.authed || done }
  settle answer with_password s =
      let (gate, done) = finish_local parse_json token_of url_of answer s.gate in
      record s { gate = gate; in_flight = none; authed = s.authed || done }
  settle answer (with_provider provider) s =
      let (gate, url) = finish_federated parse_json token_of url_of answer s.gate in
      record s { gate = gate; in_flight = none; left = s.left || is_some url }

  unfoldable pub handle : Session → Event → Session
  unfolding set_providers submit start settle
  handle s (providers_answered answer) = record s { gate = set_providers answer s.gate }
  handle s (email_typed t) = record s { gate = record s.gate { email = t } }
  handle s (password_typed t) = record s { gate = record s.gate { password = t } }
  handle s (token_typed t) = record s { gate = record s.gate { legacy_token = t } }
  handle s (submitted attempt) = submit attempt s
  handle s (answered answer) = elim s.in_flight [
    | none ↦ s
    | some attempt ↦ settle answer attempt s
  ]

  abbrev pub run : Session → List Event → Session
  run = foldl handle

  -- The form can be used, or waits for an answer, or stays disabled on a page that has been sent to
  -- an address.
  abbrev pub IsWaiting : Session → Type 0
  IsWaiting s =
      ((s.gate.busy ≡ is_some s.in_flight) × (s.left ≡ false))
      ⊎ ((s.gate.busy ≡ true) × (s.in_flight ≡ none) × (s.left ≡ true))

  set_providers-busy : (answer : Fetched) (g : Gate) → (set_providers answer g).busy ≡ g.busy
  unfolding set_providers
  set_providers-busy (rejected message) g = refl
  set_providers-busy (response res) g = ground arith

  submit-IsWaiting : (attempt : Attempt) (s : Session) → IsWaiting s → IsWaiting (submit attempt s)
  unfolding submit start start_legacy start_local start_federated
  submit-IsWaiting with_token s h = ground arith
  submit-IsWaiting with_password s h = ground arith
  submit-IsWaiting (with_provider provider) s h = ground arith

  end_legacy-busy :
      (r : Result Json) (storage : Storage) (g : Gate)
      → (end_legacy parse_json token_of url_of (r, storage) g).0.busy ≡ false
  unfolding end_legacy
  end_legacy-busy (ok json) storage g = refl
  end_legacy-busy (err e) storage g = refl

  end_local-busy :
      (r : Result (Option String)) (storage : Storage) (g : Gate)
      → (end_local parse_json token_of url_of r storage g).0.busy ≡ false
  unfolding end_local
  end_local-busy (ok token) storage g = refl
  end_local-busy (err e) storage g = refl

  -- The form is enabled again, or there is an address to go to and it stays as it was.
  end_federated-busy :
      (r : Result (Option String)) (storage : Storage) (g : Gate)
      → let (after, url) = end_federated parse_json token_of url_of r storage g in
        ((after.busy ≡ false) × (is_some url ≡ false))
        ⊎ ((after.busy ≡ g.busy) × (is_some url ≡ true))
  unfolding end_federated
  end_federated-busy (ok url) storage g = inr (refl, refl)
  end_federated-busy (err e) storage g = inl (refl, refl)

  settle-IsWaiting :
      (answer : Fetched) (attempt : Attempt) (s : Session)
      → s.gate.busy ≡ true
      → s.left ≡ false
      → IsWaiting (settle answer attempt s)
  unfolding settle finish_legacy finish_local finish_federated
  settle-IsWaiting answer with_token s b l =
      let (result, storage) = receive parse_json answer s.gate.storage in
      inl (end_legacy-busy result storage s.gate, l)
  settle-IsWaiting answer with_password s b l =
      let (result, storage) = receive parse_json answer s.gate.storage in
      inl (end_local-busy (read parse_json token_of url_of token_of result) storage s.gate, l)
  settle-IsWaiting answer (with_provider provider) s b l =
      let (result, storage) = receive parse_json answer s.gate.storage in
      elim (end_federated-busy (read parse_json token_of url_of url_of result) storage s.gate) [
        | inl (free, stays) ↦ inl (free, ground arith)
        | inr (kept, leaves) ↦ inr (kept ∙ b, refl, ground arith)
      ]

  answered-IsWaiting :
      (answer : Fetched) (s : Session) → IsWaiting s → IsWaiting (handle s (answered answer))
  unfolding handle
  answered-IsWaiting answer s h = elim (Option-cases s.in_flight) [
    | inl e ↦ rw (e, handle) h
    | inr (attempt, e) ↦ elim h [
      | inl (busy, here) ↦ rw (e, handle) (settle-IsWaiting answer attempt s (rw e at busy) here)
      | inr (busy, idle, gone) ↦ cc
    ]
  ]

  handle-IsWaiting : (s : Session) (e : Event) → IsWaiting s → IsWaiting (handle s e)
  unfolding handle
  handle-IsWaiting s (providers_answered answer) h =
      ground (arith, set_providers-busy answer s.gate)
  handle-IsWaiting s (email_typed t) h = h
  handle-IsWaiting s (password_typed t) h = h
  handle-IsWaiting s (token_typed t) h = h
  handle-IsWaiting s (submitted attempt) h = submit-IsWaiting attempt s h
  handle-IsWaiting s (answered answer) h = answered-IsWaiting answer s h

  -- Whatever happens to a form that can be used, waits or has left, it then can be used, waits or
  -- has left: it is disabled exactly while a submission waits for its answer, until the page is sent
  -- to the address of a provider, and stays disabled from there on. So no failure of an answer
  -- leaves it disabled.
  pub run-IsWaiting : (s : Session) (events : List Event) → IsWaiting s → IsWaiting (run s events)
  run-IsWaiting s [] h = h
  run-IsWaiting s (e ∷ events) h = run-IsWaiting (handle s e) events (handle-IsWaiting s e h)
