-- ===== src/Routes.antt =====
-- frontend/src/pages/Routes.tsx: the routes, their polling, and the calls on one upstream. A
-- snapshot is the parsed answer, of which the table is a view.
pub mod Busy
pub mod Cards
pub mod Logs
use mcpxy.Prelude.{
  ℕ, String, Bool, true, false, not, Option, none, some, List, [], ◌∷◌, foldl, ◌==◌, ◌<>◌, ◌&&◌,
  ◌||◌, if◌then◌else◌,
}
use mcpxy.Api.Json.{Json, Result, ok, err, message_of}

-- `restart` and `remove`, which differ in their call and their message.
pub data Action : Type 0 where
  restart remove : Action

pub data Call : Type 0 where
  get_routes post_refresh : Call
  post_restart : (name : String) → Call
  delete_upstream : (name : String) → Call

-- A handler that has been started: on an upstream, or for all of them.
pub data Job : Type 0 where
  rediscovering : Job
  -- It waits for its own call, then for `refresh`.
  acting refreshing : Action → (name : String) → Job

pub record Page : Type 0 where
  pub routes : Json
  pub busy : Option String
  pub error : Option String
  pub jobs : List Job
  pub sent : List Call

pub data Event : Type 0 where
  -- The answer to a request of the timer, or to the first one.
  polled : Result Json → Event
  timer : Event
  rediscover_clicked : Event
  restart_clicked : (name : String) → Event
  remove_clicked : (name : String) (confirmed : Bool) → Event
  -- The answer that a job has waited for.
  job_answered : Job → Result Json → Event

abbrev pub sentinel : String
sentinel = "__refresh__"

abbrev pub same_action : Action → Action → Bool
same_action restart restart = true
same_action remove remove = true
same_action _ _ = false

abbrev pub same_job : Job → Job → Bool
same_job rediscovering rediscovering = true
same_job (acting a name) (acting b other) = same_action a b && name == other
same_job (refreshing a name) (refreshing b other) = same_action a b && name == other
same_job _ _ = false

-- Takes one such job out of the list; `none` where there is none.
unfoldable pub take_job : Job → List Job → Option (List Job)
take_job job [] = none
take_job job (held ∷ jobs) =
    if same_job held job
    then some jobs
    else elim (take_job job jobs) [ none ↦ none | some rest ↦ some (held ∷ rest) ]

unfoldable pub refresh : Result Json → Page → Page
refresh (ok routes) p = record p { routes = routes; error = none }
refresh (err e) p = record p { error = some (message_of e) }

unfoldable pub start : Action → String → Page → Page
start action name p = record p {
  busy = some name;
  jobs = acting action name ∷ p.jobs;
  sent = elim action [ restart ↦ post_restart name | remove ↦ delete_upstream name ] ∷ p.sent;
}

-- The rest of a handler, once what it awaits is there; its job is out of the list.
unfoldable pub resume : Job → Result Json → Page → Page
unfolding refresh
resume rediscovering (ok routes) p = record p { routes = routes; busy = none }
resume rediscovering (err e) p = record p { error = some (message_of e); busy = none }
resume (acting action name) (ok body) p = record p {
  jobs = refreshing action name ∷ p.jobs;
  sent = get_routes ∷ p.sent;
}
resume (acting action name) (err e) p = record p { error = some (message_of e); busy = none }
resume (refreshing action name) answer p = record (refresh answer p) { busy = none }

-- The button of a row, and `Rediscover tools`.
abbrev pub is_busy : String → Option String → Bool
is_busy name none = false
is_busy name (some held) = held == name

unfoldable pub handle : Page → Event → Page
unfolding refresh start resume take_job
handle p (polled answer) = refresh answer p
handle p timer = record p { sent = get_routes ∷ p.sent }
handle p rediscover_clicked = if is_busy sentinel p.busy then p else record p {
  busy = some sentinel;
  jobs = rediscovering ∷ p.jobs;
  sent = post_refresh ∷ p.sent;
}
handle p (restart_clicked name) = if is_busy name p.busy then p else start restart name p
handle p (remove_clicked name confirmed) =
    if is_busy name p.busy || not confirmed then p else start remove name p
handle p (job_answered job answer) = elim (take_job job p.jobs) [
  | none ↦ p
  | some rest ↦ resume job answer (record p { jobs = rest })
]

abbrev pub run : Page → List Event → Page
run = foldl handle
