-- ===== src/Import/Refine.antt =====
-- The page implements a set of pairs of a client and one of its upstreams.
use mcpxy.Prelude.{
  String, true, false, none, some, List, [], ◌∷◌, ◌≡◌, ◌≢◌, ◌⊎◌, inl, inr, refl, ap, ◌∙◌, arith,
  ◌==◌, eq_refl, All, Bool-cases, Option-cases, List-cases, if◌then◌else◌,
}
use mcpxy.Api.Json.{Result, ok, err}
use mcpxy.Api.Types.{DiscoveryClient, DiscoveryResponse}
use mcpxy.Import.{
  Page, ImportRequest, ImportResponse, has, chosen_of, toggle, is_selected, import_start,
  import_finish, import_disabled, reload_start, reload_finish,
}
use mcpxy.Import.Selection.{is_selected-toggle, chosen_of-import_finish}
use mcpxy.Import.Session.{
  Session, Event, toggled, import_clicked, import_answered, reload_clicked, reload_answered, click,
  answer, handle, run,
}
use mcpxy.Import.Spec.{
  IsFailure, Step, flips, starts, refuses, succeeds, fails, ignores, rescans, rescanned, id_of,
  abstract_of, IsOwn, Inv, Steps, stop, next,
}

disabled-empty :
    (client : DiscoveryClient) (p : Page)
    → chosen_of client.client_id p ≡ []
    → import_disabled client p ≡ true
unfolding import_disabled chosen_of
disabled-empty client p e = ground arith

disabled-nonempty :
    (client : DiscoveryClient) (p : Page) {name : String} {names : List String}
    → chosen_of client.client_id p ≡ name ∷ names
    → import_disabled client p ≡ p.busy
unfolding import_disabled chosen_of
disabled-nonempty client p e = ground arith

click_disabled :
    (s : Session) (client : DiscoveryClient)
    → import_disabled client s.page ≡ true
    → click client s ≡ s
unfolding click
click_disabled s client h = rw h refl

click_enabled :
    (s : Session) (client : DiscoveryClient) {name : String} {names : List String}
    → import_disabled client s.page ≡ false
    → chosen_of client.client_id s.page ≡ name ∷ names
    → click client s ≡ record {
      page = record (s.page) { busy = true; error = none; result = none };
      in_flight =
          some (
            client,
            record { client = client.client_id; upstreams = name ∷ names; replace = true },
          );
    }
unfolding click import_start chosen_of
click_enabled s client h e = ground arith

has_first :
    (client_id : String) (p : Page) {name : String} {names : List String}
    → chosen_of client_id p ≡ name ∷ names
    → is_selected client_id name p ≡ true
unfolding is_selected chosen_of has
has_first client_id p {name} e = rw e (ground (arith, eq_refl name))

has_none :
    (client_id name : String) (p : Page)
    → chosen_of client_id p ≡ []
    → is_selected client_id name p ≡ false
unfolding is_selected chosen_of has
has_none client_id name p e = rw e refl

busy-importing : (s : Session) → Inv s → s.page.busy ≡ true → id_of s.in_flight ≢ none
busy-importing s v h = ground (arith, v.busy)

free-importing : (s : Session) → Inv s → s.page.busy ≡ false → s.in_flight ≡ none
free-importing s v h = ground (arith, v.busy)

Keeps_started :
    (s : Session) (c n : String)
    → is_selected c n (record (s.page) { busy = true; error = none; result = none })
      ≡ is_selected c n s.page
unfolding is_selected chosen_of
Keeps_started s c n = refl

click-Step :
    (s : Session) (client : DiscoveryClient)
    → Inv s
    → Step (abstract_of s) (import_clicked client) (abstract_of (click client s))
unfolding abstract_of
click-Step s client v = elim (List-cases (chosen_of client.client_id s.page)) [
  | inl empty ↦ rw (click_disabled s client (disabled-empty client s.page empty)) (
      refuses _ _ client (inr (λ name. has_none client.client_id name s.page empty)) (λ c n. refl)
        refl)
  | inr (name, names, e) ↦ elim (Bool-cases s.page.busy) [
    | inl busy ↦
        rw (click_disabled s client (disabled-nonempty client s.page e ∙ busy))
          (refuses _ _ client (inl (busy-importing s v busy)) (λ c n. refl) refl)
    | inr free ↦ rw (click_enabled s client (disabled-nonempty client s.page e ∙ free) e) (
        starts _ _ client name (ap id_of (free-importing s v free))
          (has_first client.client_id s.page e) (λ c n. Keeps_started s c n) refl)
  ]
]

answer_idle :
    (s : Session) (result : Result ImportResponse) → s.in_flight ≡ none → answer result s ≡ s
unfolding answer
answer_idle s result e = rw e refl

answer-some :
    (s : Session) (result : Result ImportResponse) {client : DiscoveryClient}
    {request : ImportRequest}
    → s.in_flight ≡ some (client, request)
    → answer result s
      ≡ record { page = import_finish client request.upstreams result s.page; in_flight = none }
unfolding answer
answer-some s result e = rw e refl

is_selected-failure :
    (client : DiscoveryClient) (chosen : List String) (result : Result ImportResponse) (p : Page)
    (c n : String)
    → IsFailure result
    → is_selected c n (import_finish client chosen result p) ≡ is_selected c n p
unfolding is_selected chosen_of import_finish
is_selected-failure client chosen (err e) p c n h = refl
is_selected-failure client chosen (ok res) p c n h = rw h refl

is_selected-success :
    (client : DiscoveryClient) (chosen : List String) (res : ImportResponse) (p : Page)
    (c n : String)
    → client.client_id ≢ "__proto__"
    → res.applied ≡ true
    → is_selected c n (import_finish client chosen (ok res) p)
      ≡ (if client.client_id == c then false else is_selected c n p)
unfolding is_selected has
is_selected-success client chosen res p c n own h =
    ground (arith, chosen_of-import_finish client chosen c p res own h)

Result-cases :
    (result : Result ImportResponse)
    → IsFailure result ⊎ ((res : ImportResponse) × (result ≡ ok res) × (res.applied ≡ true))
Result-cases (err e) = inl tt
Result-cases (ok res) = elim (Bool-cases res.applied) [
  | inl applied ↦ inr (res, refl, applied)
  | inr refused ↦ inl refused
]

answer-Step :
    (s : Session) (result : Result ImportResponse)
    → Inv s
    → Step (abstract_of s) (import_answered result) (abstract_of (answer result s))
unfolding abstract_of
answer-Step s result v = elim (Option-cases s.in_flight) [
  | inl idle ↦
      rw (answer_idle s result idle)
        (ignores _ _ result (ap id_of idle) (λ c n. refl) (ap id_of idle))
  | inr ((client, request), e) ↦ elim (Result-cases result) [
    | inl failed ↦ rw (answer-some s result e) (
        fails _ _ result failed
          (λ c n. is_selected-failure client request.upstreams result s.page c n failed) refl)
    | inr (res, ok_, applied) ↦
        rw (ok_, answer-some s (ok res) e)
          (succeeds _ _ client.client_id res (ap id_of e) applied
            (λ c n.
              is_selected-success client request.upstreams res s.page c n
                (v.own client.client_id (ap id_of e)) applied)
            refl)
  ]
]

reloaded_same :
    (result : Result DiscoveryResponse) (p : Page) (c n : String)
    → is_selected c n (reload_finish result p) ≡ is_selected c n p
unfolding is_selected chosen_of reload_finish
reloaded_same (ok response) p c n = refl
reloaded_same (err e) p c n = refl

handle-Step :
    (s : Session) (e : Event) → Inv s → IsOwn e → Step (abstract_of s) e (abstract_of (handle s e))
unfolding handle
handle-Step s (toggled client_id name) v own =
    unfold abstract_of in
    flips _ _ client_id name (λ c n. is_selected-toggle client_id name c n s.page own) refl
handle-Step s (import_clicked client) v own = click-Step s client v
handle-Step s (import_answered result) v own = answer-Step s result v
handle-Step s reload_clicked v own =
    unfold abstract_of is_selected chosen_of reload_start in rescans _ _ (λ c n. refl) refl
handle-Step s (reload_answered result) v own =
    unfold abstract_of in rescanned _ _ result (λ c n. reloaded_same result s.page c n) refl

click-Inv :
    (s : Session) (client : DiscoveryClient)
    → Inv s
    → client.client_id ≢ "__proto__"
    → Inv (click client s)
click-Inv s client v own = elim (List-cases (chosen_of client.client_id s.page)) [
  | inl empty ↦ rw (click_disabled s client (disabled-empty client s.page empty)) v
  | inr (name, names, e) ↦ elim (Bool-cases s.page.busy) [
    | inl busy ↦ rw (click_disabled s client (disabled-nonempty client s.page e ∙ busy)) v
    | inr free ↦
        rw (click_enabled s client (disabled-nonempty client s.page e ∙ free) e)
          record { busy = refl; own = λ id h. ground (arith, own) }
  ]
]

busy-import_finish :
    (client : DiscoveryClient) (chosen : List String) (result : Result ImportResponse) (p : Page)
    → (import_finish client chosen result p).busy ≡ false
unfolding import_finish
busy-import_finish client chosen (ok res) p = ground arith
busy-import_finish client chosen (err e) p = refl

handle-Inv : (s : Session) (e : Event) → Inv s → IsOwn e → Inv (handle s e)
unfolding handle toggle reload_start reload_finish
handle-Inv s (toggled client_id name) v own = record { busy = v.busy; own = v.own }
handle-Inv s (import_clicked client) v own = click-Inv s client v own
handle-Inv s (import_answered result) v own = elim (Option-cases s.in_flight) [
  | inl idle ↦ rw (answer_idle s result idle) v
  | inr ((client, request), e) ↦
      rw (answer-some s result e) record {
        busy = busy-import_finish client request.upstreams result s.page;
        own = λ id h. cc;
      }
]
handle-Inv s reload_clicked v own = record { busy = v.busy; own = v.own }
handle-Inv s (reload_answered (ok response)) v own = record { busy = v.busy; own = v.own }
handle-Inv s (reload_answered (err e)) v own = record { busy = v.busy; own = v.own }

-- The page implements the set: every run of its buttons and of the answers to its calls is a run
-- of the specification, from what the page stands for to what it then stands for. No client is
-- named `__proto__`, and the page is busy at first exactly while an import is on its way.
pub run_refines :
    (s : Session) (events : List Event)
    → Inv s
    → All IsOwn events
    → Steps (abstract_of s) events (abstract_of (run s events))
run_refines s [] v own = stop (abstract_of s)
run_refines s (e ∷ events) v (own, owns) =
    next _ (abstract_of (handle s e)) _ e events (handle-Step s e v own)
      (run_refines (handle s e) events (handle-Inv s e v own) owns)
