-- ===== src/Import/Spec.antt =====
-- What the page promises: a set of pairs of a client and one of its upstreams.
use mcpxy.Prelude.{
  String, Bool, true, false, not, Option, none, some, List, [], ◌∷◌, ◌≡◌, ◌≢◌, ◌⊎◌, ◌&&◌, ◌==◌,
  is_some, if◌then◌else◌,
}
use mcpxy.Api.Json.{Result, ok, err}
use mcpxy.Api.Types.{DiscoveryClient}
use mcpxy.Import.{ImportRequest, ImportResponse, is_selected}
use mcpxy.Import.Session.{
  Session, Event, toggled, import_clicked, import_answered, reload_clicked, reload_answered,
}

-- The set, and the client whose import is on its way.
pub record Spec : Type 0 where
  pub member : String → String → Bool
  pub importing : Option String

abbrev pub Keeps : Spec → Spec → Type 0
Keeps a b = (c n : String) → b.member c n ≡ a.member c n

abbrev pub IsFailure : Result ImportResponse → Type 0
IsFailure (ok res) = res.applied ≡ false
IsFailure (err e) = Unit

-- A toggle flips one pair; a click starts an import where the client has a member and none is on
-- its way; a successful import empties the client's part; nothing else changes the set.
pub data Step : Spec → Event → Spec → Type 0 where
  flips :
      (a b : Spec) (client_id name : String)
      → ((c n : String)
          → b.member c n
            ≡ (if client_id == c && name == n then not (a.member client_id name) else a.member c n))
      → b.importing ≡ a.importing
      → Step a (toggled client_id name) b
  starts :
      (a b : Spec) (client : DiscoveryClient) (name : String)
      → a.importing ≡ none
      → a.member client.client_id name ≡ true
      → Keeps a b
      → b.importing ≡ some client.client_id
      → Step a (import_clicked client) b
  refuses :
      (a b : Spec) (client : DiscoveryClient)
      → (a.importing ≢ none) ⊎ ((name : String) → a.member client.client_id name ≡ false)
      → Keeps a b
      → b.importing ≡ a.importing
      → Step a (import_clicked client) b
  succeeds :
      (a b : Spec) (client_id : String) (res : ImportResponse)
      → a.importing ≡ some client_id
      → res.applied ≡ true
      → ((c n : String) → b.member c n ≡ (if client_id == c then false else a.member c n))
      → b.importing ≡ none
      → Step a (import_answered (ok res)) b
  fails :
      (a b : Spec) (result : Result ImportResponse)
      → IsFailure result
      → Keeps a b
      → b.importing ≡ none
      → Step a (import_answered result) b
  ignores :
      (a b : Spec) (result : Result ImportResponse)
      → a.importing ≡ none
      → Keeps a b
      → b.importing ≡ none
      → Step a (import_answered result) b
  rescans : (a b : Spec) → Keeps a b → b.importing ≡ a.importing → Step a reload_clicked b
  rescanned :
      (a b : Spec) (result : Result _)
      → Keeps a b
      → b.importing ≡ a.importing
      → Step a (reload_answered result) b

abbrev pub id_of : Option (DiscoveryClient × ImportRequest) → Option String
id_of none = none
id_of (some (client, request)) = some client.client_id

-- What a session stands for.
unfoldable pub abstract_of : Session → Spec
abstract_of s = record { member = λ c n. is_selected c n s.page; importing = id_of s.in_flight }

abbrev pub IsOwn : Event → Type 0
IsOwn (toggled client_id name) = client_id ≢ "__proto__"
IsOwn (import_clicked client) = client.client_id ≢ "__proto__"
IsOwn _ = Unit

pub record Inv (s : Session) : Type 0 where
  pub busy : s.page.busy ≡ is_some s.in_flight
  pub own : (id : String) → id_of s.in_flight ≡ some id → id ≢ "__proto__"

-- The steps of a run, one for each event.
pub data Steps : Spec → List Event → Spec → Type 0 where
  stop : (a : Spec) → Steps a [] a
  next :
      (a b c : Spec) (e : Event) (events : List Event)
      → Step a e b
      → Steps b events c
      → Steps a (e ∷ events) c
