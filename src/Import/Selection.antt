-- ===== src/Import/Selection.antt =====
-- What a toggle and an import do to the selection.
use mcpxy.Prelude.{
  String, true, false, not, some, List, [], ◌∷◌, ◌++◌, ◌≡◌, ◌≢◌, ◌⊎◌, ◌↔◌, arith, ◌&&◌, ◌==◌,
  eq_iff, filter, or_else, if◌then◌else◌,
}
use mcpxy.Record.{lookup, assign, lookup-insert}
use mcpxy.Api.Json.{ok}
use mcpxy.Api.Types.{DiscoveryClient}
use mcpxy.Import.{
  Page, ImportResponse, has, flip, chosen_of, toggle, is_selected, import_start, import_finish,
  import_disabled,
}

has-filter :
    (name other : String) (set : List String)
    → has other (filter (λ s. not (s == name)) set)
      ≡ (if name == other then false else has other set)
unfolding has
has-filter name other [] = ground arith
has-filter name other (s ∷ set) =
    ground (arith, has-filter name other set, eq_iff s name, eq_iff s other, eq_iff name other)

has-append :
    (name other : String) (set : List String)
    → has other (set ++ name ∷ []) ≡ (if name == other then true else has other set)
unfolding has
has-append name other [] = ground arith
has-append name other (s ∷ set) = ground (arith, has-append name other set)

has-flip :
    (name other : String) (set : List String)
    → has other (flip name set) ≡ (if name == other then not (has name set) else has other set)
unfolding flip
has-flip name other set = ground (arith, has-filter name other set, has-append name other set)

lookup-assign :
    {V : Type 0} (k j : String) (v : V) (m : List (String × V))
    → k ≢ "__proto__"
    → lookup j (assign k v m) ≡ (if k == j then some v else lookup j m)
unfolding assign
lookup-assign k j v m n = ground (arith, eq_iff k "__proto__", lookup-insert k j v m)

chosen_of-assign :
    (client_id other_id : String) (set : List String) (p : Page)
    → client_id ≢ "__proto__"
    → or_else (lookup other_id (assign client_id set p.selected)) []
      ≡ (if client_id == other_id then set else chosen_of other_id p)
unfolding chosen_of
chosen_of-assign client_id other_id set p n =
    ground (arith, lookup-assign client_id other_id set p.selected n)

-- A toggle changes the selection of one upstream of one client, and of no other; the client is
-- not named `__proto__`.
pub is_selected-toggle :
    (client_id name other_id other : String) (p : Page)
    → client_id ≢ "__proto__"
    → is_selected other_id other (toggle client_id name p) ≡ (
        if client_id == other_id && name == other
        then not (is_selected client_id name p)
        else is_selected other_id other p)
unfolding is_selected toggle chosen_of
is_selected-toggle client_id name other_id other p n = ground (
  arith,
  chosen_of-assign client_id other_id (flip name (chosen_of client_id p)) p n,
  has-flip name other (chosen_of client_id p),
  eq_iff client_id other_id,
  eq_iff name other,
)

pub chosen_of-import_finish :
    (client : DiscoveryClient) (chosen : List String) (other : String) (p : Page)
    (res : ImportResponse)
    → client.client_id ≢ "__proto__"
    → res.applied ≡ true
    → chosen_of other (import_finish client chosen (ok res) p)
      ≡ (if client.client_id == other then [] else chosen_of other p)
unfolding import_finish chosen_of
chosen_of-import_finish client chosen other p res n a =
    ground (arith, chosen_of-assign client.client_id other [] p n)

-- The button of a client works exactly when something of it is selected and nothing is on its
-- way; then all that is selected is sent, and a success leaves nothing of this client selected
-- and the other clients' selections as they were.
pub import_outcome :
    (client : DiscoveryClient) (other : String) (p : Page) (res : ImportResponse)
    → client.client_id ≢ "__proto__"
    → res.applied ≡ true
    → ((import_disabled client p ≡ false)
        ↔ ((chosen_of client.client_id p ≢ []) × (p.busy ≡ false)))
      × ((chosen_of client.client_id p ≡ [])
          ⊎ ((import_start client p).1
              ≡ some (record {
                client = client.client_id;
                upstreams = chosen_of client.client_id p;
                replace = true;
              })))
      × (chosen_of other (import_finish client (chosen_of client.client_id p) (ok res) p)
          ≡ (if client.client_id == other then [] else chosen_of other p))
unfolding import_disabled import_start import_finish chosen_of
import_outcome client other p res n a =
    (ground arith, ground arith, ground (arith, chosen_of-assign client.client_id other [] p n))
