-- ===== src/Import/Session.antt =====
-- The page as it runs: its buttons and the answers to its calls. React gives `importClient` the
-- selection of the render that the click saw.
use mcpxy.Prelude.{String, Option, none, some, List, foldl, if◌then◌else◌}
use mcpxy.Api.Json.{Result}
use mcpxy.Api.Types.{DiscoveryClient, DiscoveryResponse}
use mcpxy.Import.{
  Page, ImportRequest, ImportResponse, toggle, import_start, import_finish, import_disabled,
  reload_start, reload_finish,
}

pub record Session : Type 0 where
  pub page : Page
  -- The import that is on its way.
  pub in_flight : Option (DiscoveryClient × ImportRequest)

pub data Event : Type 0 where
  toggled : (client_id name : String) → Event
  import_clicked : DiscoveryClient → Event
  import_answered : Result ImportResponse → Event
  reload_clicked : Event
  reload_answered : Result DiscoveryResponse → Event

abbrev pub with_client :
    DiscoveryClient → Option ImportRequest → Option (DiscoveryClient × ImportRequest)
with_client client none = none
with_client client (some request) = some (client, request)

unfoldable pub click : DiscoveryClient → Session → Session
click client s =
    if import_disabled client s.page
    then s
    else let (page, request) = import_start client s.page in
      record { page = page; in_flight = with_client client request }

unfoldable pub answer : Result ImportResponse → Session → Session
answer result s = elim s.in_flight [
  | none ↦ s
  | some (client, request) ↦ record {
    page = import_finish client request.upstreams result s.page;
    in_flight = none;
  }
]

unfoldable pub handle : Session → Event → Session
handle s (toggled client_id name) = record s { page = toggle client_id name s.page }
handle s (import_clicked client) = click client s
handle s (import_answered result) = answer result s
handle s reload_clicked = record s { page = reload_start s.page }
handle s (reload_answered result) = record s { page = reload_finish result s.page }

abbrev pub run : Session → List Event → Session
run = foldl handle
