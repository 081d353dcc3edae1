-- ===== src/Config.antt =====
-- frontend/src/pages/Config.tsx: the editor of the configuration. `JSON.parse`,
-- `JSON.stringify(v, null, 2)` and whether the text of a JSON number is zero are parameters.
pub mod Sending
pub mod Applying
pub mod Upstreams
use mcpxy.Prelude.{
  String, Bool, true, false, not, Option, none, some, List, [], ◌∷◌, foldl, ◌<>◌, or_else, truthy,
  if◌then◌else◌,
}
use mcpxy.Api.Json.{Json, null, boolean, number, string, array, object, Result, ok, err, message_of}

pub record Script : Type 0 where
  pub parse : String → Result Json
  pub print : Json → String
  pub is_zero : (number_text : String) → Bool

pub data Tone : Type 0 where
  ok_tone err_tone : Tone

pub record Validation : Type 0 where
  pub valid : Bool
  pub error : Option String

pub data Call : Type 0 where
  get_config : Call
  post_validate post_dry_run post_apply : (config : Json) → Call

-- What a button's handler waits for.
pub data Waiting : Type 0 where
  validating previewing applying reloading : Waiting

pub record Page : Type 0 where
  pub current : Option Json
  pub draft : String
  pub result : Option String
  pub result_tone : Tone
  pub busy : Bool
  pub waiting : Option Waiting
  -- What the page has sent, the latest first; it starts by loading.
  pub sent : List Call

abbrev pub initial_page : Page
initial_page = record {
  current = none;
  draft = "";
  result = none;
  result_tone = ok_tone;
  busy = false;
  waiting = none;
  sent = get_config ∷ [];
}

pub data Event : Type 0 where
  -- The answer to the first request.
  loaded : Result Json → Event
  typed : String → Event
  validate_clicked preview_clicked : Event
  apply_clicked : (confirmed : Bool) → Event
  validate_answered : Result Validation → Event
  preview_answered apply_answered reload_answered : Result Json → Event

abbrev pub say : Tone → String → Page → Page
say tone text p = record p { result = some text; result_tone = tone }

module _ (script : Script) where
  -- `!cfg` of a parsed value, negated.
  unfoldable pub truthy_json : Json → Bool
  truthy_json null = false
  truthy_json (boolean b) = b
  truthy_json (number text) = not (script.is_zero text)
  truthy_json (string text) = truthy text
  truthy_json (array items) = true
  truthy_json (object fields) = true

  unfoldable pub load : Result Json → Page → Page
  load (ok config) p = record p {
    current = some config;
    draft = script.print config;
    result = none;
  }
  load (err e) p = say err_tone (message_of e) p

  -- The draft, or what `parseDraft` leaves on the page and `null`.
  unfoldable pub parse_draft : Page → Page × Option Json
  parse_draft p = elim (script.parse p.draft) [
    | ok config ↦ (p, some config)
    | err e ↦ (say err_tone ("Invalid JSON: " <> message_of e) p, none)
  ]

  -- A value that is falsy ends the handler like `null`.
  unfoldable pub checked : Option Json → Option Json
  unfolding truthy_json
  checked none = none
  checked (some config) = if truthy_json config then some config else none

  abbrev pub send : Call → Waiting → Page → Page
  send call wait p = record p { busy = true; waiting = some wait; sent = call ∷ p.sent }

  unfoldable pub validate : Page → Page
  unfolding parse_draft checked
  validate p =
      let (q, draft) = parse_draft p in
      elim (checked draft) [ none ↦ q | some config ↦ send (post_validate config) validating q ]

  unfoldable pub preview : Page → Page
  unfolding parse_draft checked
  preview p =
      let (q, draft) = parse_draft p in
      elim (checked draft) [ none ↦ q | some config ↦ send (post_dry_run config) previewing q ]

  -- `confirm` is asked only about a draft that parses.
  unfoldable pub apply : (confirmed : Bool) → Page → Page
  unfolding parse_draft checked
  apply confirmed p =
      let (q, draft) = parse_draft p in
      elim (checked draft) [
        | none ↦ q
        | some config ↦ if confirmed then send (post_apply config) applying q else q
      ]

  abbrev pub finish : Page → Page
  finish p = record p { busy = false; waiting = none }

  unfoldable pub validate_end : Result Validation → Page → Page
  validate_end (ok out) p = finish (
      if out.valid
      then say ok_tone "Config is valid." p
      else say err_tone (or_else out.error "Invalid config") p)
  validate_end (err e) p = finish (say err_tone (message_of e) p)

  unfoldable pub preview_end : Result Json → Page → Page
  preview_end (ok out) p = finish (say ok_tone (script.print out) p)
  preview_end (err e) p = finish (say err_tone (message_of e) p)

  -- A success is reported, and the configuration is loaded before the handler ends.
  unfoldable pub apply_end : Result Json → Page → Page
  apply_end (ok out) p = record p {
    result = some ("Applied.\n" <> script.print out);
    result_tone = ok_tone;
    waiting = some reloading;
    sent = get_config ∷ p.sent;
  }
  apply_end (err e) p = finish (say err_tone (message_of e) p)

  -- An answer that no handler waits for does not come.
  unfoldable pub answered : Waiting → Event → Page → Page
  unfolding load validate_end preview_end apply_end
  answered validating (validate_answered answer) p = validate_end answer p
  answered previewing (preview_answered answer) p = preview_end answer p
  answered applying (apply_answered answer) p = apply_end answer p
  answered reloading (reload_answered answer) p = finish (load answer p)
  answered wait e p = p

  abbrev pub resume : Option Waiting → Event → Page → Page
  resume none e p = p
  resume (some wait) e p = answered wait e p

  unfoldable pub handle : Page → Event → Page
  unfolding load validate preview apply answered
  handle p (loaded answer) = load answer p
  handle p (typed text) = record p { draft = text }
  handle p validate_clicked = if p.busy then p else validate p
  handle p preview_clicked = if p.busy then p else preview p
  handle p (apply_clicked confirmed) = if p.busy then p else apply confirmed p
  handle p (validate_answered answer) = resume p.waiting (validate_answered answer) p
  handle p (preview_answered answer) = resume p.waiting (preview_answered answer) p
  handle p (apply_answered answer) = resume p.waiting (apply_answered answer) p
  handle p (reload_answered answer) = resume p.waiting (reload_answered answer) p

  abbrev pub run : Page → List Event → Page
  run = foldl handle
