-- ===== src/Browse/Page.antt =====
-- `Browse` of Browse.tsx as it runs: the catalog, the search, the two dialogs and the toast. A dialog
-- has a number of its own, which its calls carry: an answer to a dialog that is gone finds no state.
-- The timers of the toast fire in the order in which they were set.
pub mod Toast
use mcpxy.Prelude.{
  ℕ, zero, suc, String, Bool, true, false, not, Option, none, some, List, ◌<>◌, ◌&&◌, nat_eq,
  truthy, foldl, length, if◌then◌else◌,
}
use mcpxy.Api.Json.{Result, ok, err, message_of}
use mcpxy.Api.Types.{CatalogEntry, CatalogResponse, ManualUpstreamResponse}
use mcpxy.Manual.Payload.{Form}
use mcpxy.Manual.Submit.{Progress, submit_start, submit_done, submit_disabled}
use mcpxy.Browse.{
  filtered, Dialog, open_dialog, set_var, InstallResponse, install_start, install_finish,
  install_disabled,
}

pub record InstallDialog : Type 0 where
  pub instance_ : ℕ
  pub entry : CatalogEntry
  pub dialog : Dialog

pub record ManualDialog : Type 0 where
  pub instance_ : ℕ
  pub form : Form
  pub progress : Progress

pub record Page : Type 0 where
  pub catalog : Option CatalogResponse
  pub error : Option String
  pub query : String
  pub category : String
  pub selected : Option InstallDialog
  pub manual : Option ManualDialog
  pub manual_toast : Option String
  pub timers : ℕ
  pub opened : ℕ
  pub cancelled : Bool

unfoldable pub initial_page : Page
initial_page = record {
  catalog = none;
  error = none;
  query = "";
  category = "";
  selected = none;
  manual = none;
  manual_toast = none;
  timers = 0;
  opened = 0;
  cancelled = false;
}

pub data Event : Type 0 where
  catalog_answered : Result CatalogResponse → Event
  unmounted : Event
  query_typed category_picked : String → Event
  install_opened : CatalogEntry → Event
  install_named : (name : String) → Event
  variable_typed : (name value : String) → Event
  install_clicked install_closed : Event
  install_answered : (dialog : ℕ) (name : String) → Result InstallResponse → Event
  manual_opened : (blank : Form) → Event
  -- The form behind an edit.
  manual_typed : Form → Event
  manual_clicked manual_closed : Event
  manual_answered : (dialog : ℕ) (name : String) → Result ManualUpstreamResponse → Event
  timer_fired : Event

unfoldable pub set_catalog : Result CatalogResponse → Page → Page
set_catalog (ok c) p = if p.cancelled then p else record p { catalog = some c }
set_catalog (err e) p = if p.cancelled then p else record p { error = some (message_of e) }

-- `setSelected(entry)`: a dialog that is open keeps its state.
unfoldable pub select : CatalogEntry → Page → Page
select entry p = elim p.selected [
  | none ↦ record p {
    selected = some record { instance_ = p.opened; entry = entry; dialog = open_dialog entry };
    opened = suc p.opened;
  }
  | some d ↦ record p { selected = some (record d { entry = entry }) }
]

unfoldable pub on_install : (InstallDialog → InstallDialog) → Page → Page
on_install f p = elim p.selected [ none ↦ p | some d ↦ record p { selected = some (f d) } ]

unfoldable pub click_install : InstallDialog → InstallDialog
click_install d =
    if install_disabled d.dialog
    then d
    else record d { dialog = (install_start d.entry d.dialog).0 }

unfoldable pub finish_install : ℕ → String → Result InstallResponse → InstallDialog → InstallDialog
finish_install n name answer d =
    if nat_eq d.instance_ n then record d { dialog = install_finish name answer d.dialog } else d

unfoldable pub on_manual : (ManualDialog → ManualDialog) → Page → Page
on_manual f p = elim p.manual [ none ↦ p | some d ↦ record p { manual = some (f d) } ]

-- `setManualOpen(true)`: a dialog that is open keeps its state.
unfoldable pub open_manual : Form → Page → Page
open_manual blank p = elim p.manual [
  | none ↦ record p {
    manual = some record {
      instance_ = p.opened;
      form = blank;
      progress = record { busy = false; error = none; result = none; warning = none };
    };
    opened = suc p.opened;
  }
  | some d ↦ p
]

unfoldable pub click_manual : ManualDialog → ManualDialog
click_manual d =
    if submit_disabled d.form d.progress then d else record d { progress = submit_start d.progress }

unfoldable pub finish_manual :
    ℕ → String → Result ManualUpstreamResponse → ManualDialog → ManualDialog
finish_manual n name answer d =
    if nat_eq d.instance_ n
    then record d { progress = (submit_done name answer d.progress).0 }
    else d

-- `onInstalled`: the toast, the end of the dialog, and the timer that clears the toast.
unfoldable pub on_installed : String → Page → Page
on_installed name p = record p {
  manual_toast = some ("Registered upstream '" <> name <> "'.");
  manual = none;
  timers = suc p.timers;
}

-- The answer to `submit`, which calls `onInstalled` also behind a dialog that is gone; the updates
-- of the dialog and of the page are rendered together.
unfoldable pub answer_manual : ℕ → String → Result ManualUpstreamResponse → Page → Page
unfolding on_manual finish_manual on_installed
answer_manual n name answer p =
    let shown = on_manual (finish_manual n name answer) p in
    if (submit_done name answer
      (record { busy = true; error = none; result = none; warning = none })).1
    then on_installed name shown
    else shown

unfoldable pub fire_timer : Page → Page
fire_timer p = elim p.timers [ zero ↦ p | suc n ↦ record p { timers = n; manual_toast = none } ]

unfoldable pub handle : Page → Event → Page
unfolding set_catalog select on_install click_install finish_install on_manual open_manual
    click_manual answer_manual fire_timer
handle p (catalog_answered answer) = set_catalog answer p
handle p unmounted = record p { cancelled = true }
handle p (query_typed s) = record p { query = s }
handle p (category_picked s) = record p { category = s }
handle p (install_opened entry) = select entry p
handle p (install_named name) =
    on_install (λ d. record d { dialog = record d.dialog { name = name } }) p
handle p (variable_typed name value) =
    on_install (λ d. record d { dialog = set_var name value d.dialog }) p
handle p install_clicked = on_install click_install p
handle p install_closed = record p { selected = none }
handle p (install_answered n name answer) = on_install (finish_install n name answer) p
handle p (manual_opened blank) = open_manual blank p
handle p (manual_typed form) = on_manual (λ d. record d { form = form }) p
handle p manual_clicked = on_manual click_manual p
handle p manual_closed = record p { manual = none }
handle p (manual_answered n name answer) = answer_manual n name answer p
handle p timer_fired = fire_timer p

abbrev pub run : Page → List Event → Page
run = foldl handle

-- What the page renders.
pub data Body : Type 0 where
  failed : (message : String) → Body
  loading : Body
  listing : (cards : List CatalogEntry) (shown total : ℕ) (toast : Option String) → Body

abbrev text_shown : Option String → Option String
text_shown none = none
text_shown (some s) = if truthy s then some s else none

module _ (to_lower_case : String → String) where
  unfoldable pub body_of : Page → Body
  body_of p = elim (text_shown p.error) [
    | some message ↦ failed message
    | none ↦ elim p.catalog [
      | none ↦ loading
      | some c ↦
          let cards = filtered to_lower_case (some c) p.query p.category in
          listing cards (length cards) (length c.entries) (text_shown p.manual_toast)
    ]
  ]
