-- ===== src/Config/Upstreams.antt =====
-- The cards of the upstreams in Config.tsx. `String` of a parsed value is a parameter.
use mcpxy.Prelude.{
  String, Bool, false, Option, none, some, List, [], ◌∷◌, ◌==◌, ◌<>◌, ◌≡◌, inl, inr, refl,
  Bool-cases, ◌∙◌, arith, ap, if◌then◌else◌,
}
use mcpxy.Api.Json.{Json, null, string, array, object, Items, nil, cons, Fields, end, field_of}
use mcpxy.Api.Entries.{entries_of, lookup-entries_of}
use mcpxy.Record.{lookup}
use mcpxy.Config.{Page}

pub record Card : Type 0 where
  pub badge : String
  pub detail : Option String

-- `current?.upstreams ?? {}`; the server answers with an object, or without the key.
unfoldable pub upstreams_of : Option Json → Fields
upstreams_of none = end
upstreams_of (some (object fields)) = elim (field_of fields "upstreams") [
  | some (object upstreams) ↦ upstreams
  | _ ↦ end
]
upstreams_of (some _) = end

abbrev is_text : String → Option Json → Bool
is_text wanted (some (string s)) = s == wanted
is_text wanted _ = false

module _ (text_of : Json → String) where
  -- `String(v ?? fallback)`
  abbrev text_or : String → Option Json → String
  text_or fallback none = fallback
  text_or fallback (some null) = fallback
  text_or fallback (some v) = text_of v

  -- An item of `join`.
  abbrev item_text : Json → String
  item_text null = ""
  item_text v = text_of v

  -- `s.args.join(" ")`
  unfoldable pub join : Items → String
  join nil = ""
  join (cons v nil) = item_text v
  join (cons v (cons w items)) = item_text v <> " " <> join (cons w items)

  abbrev args_text : Option Json → String
  args_text (some (array items)) = join items
  args_text _ = ""

  abbrev detail_of : Fields → Option String
  detail_of s =
      if is_text "stdio" (field_of s "type")
      then some (text_or "" (field_of s "command") <> " " <> args_text (field_of s "args"))
      else if is_text "http" (field_of s "type")
      then some (text_or "" (field_of s "url"))
      else none

  -- A field of `null` throws; another value that is no object has no fields.
  unfoldable pub card_of : Json → Option Card
  unfolding join
  card_of null = none
  card_of (object s) =
      some (record { badge = text_or "?" (field_of s "type"); detail = detail_of s })
  card_of _ = some (record { badge = "?"; detail = none })

  abbrev add_card :
      String → Option Card → Option (List (String × Card)) → Option (List (String × Card))
  add_card name none rest = none
  add_card name (some card) none = none
  add_card name (some card) (some rest) = some ((name, card) ∷ rest)

  -- The cards of all upstreams, or nothing where one of them throws.
  unfoldable pub cards_from : List (String × Json) → Option (List (String × Card))
  cards_from [] = some []
  cards_from ((name, settings) ∷ rest) = add_card name (card_of settings) (cards_from rest)

  unfoldable pub cards : Page → Option (List (String × Card))
  unfolding upstreams_of cards_from
  cards p = cards_from (entries_of (upstreams_of p.current))

  -- What stands for an upstream: nothing where it is not configured, else its card.
  abbrev card_at : Option Json → Option Card
  card_at none = none
  card_at (some settings) = card_of settings

  -- What the cards of one more upstream hold.
  lookup-add_card :
      (held name : String) (c : Option Card) (rest : Option (List (String × Card)))
      → {shown : List (String × Card)} → add_card held c rest ≡ some shown
      → (cs : List (String × Card)) × (rest ≡ some cs)
        × (lookup name shown ≡ (if held == name then c else lookup name cs))
  unfolding lookup
  lookup-add_card held name none rest e = ground arith
  lookup-add_card held name (some card) none e = ground arith
  lookup-add_card held name (some card) (some cs) e =
      (cs, refl, elim (Bool-cases (held == name)) [ inl y ↦ grind arith | inr n ↦ grind arith ])

  lookup-cards_from :
      (entries : List (String × Json)) (shown : List (String × Card)) (name : String)
      → cards_from entries ≡ some shown
      → lookup name shown ≡ card_at (lookup name entries)
  unfolding cards_from lookup
  lookup-cards_from [] shown name e = grind arith
  lookup-cards_from ((held, settings) ∷ rest) shown name e =
      let (cs, r, l) = lookup-add_card held name (card_of settings) (cards_from rest) e in
      elim (Bool-cases (held == name)) [
        | inl y ↦ ground (arith, l)
        | inr n ↦ ground (arith, l, lookup-cards_from rest cs name r)
      ]

  -- Where the page is drawn, the card of each name is that of the upstream which the loaded
  -- configuration has under it, and there are no others.
  pub lookup-cards :
      (p : Page) (shown : List (String × Card)) (name : String)
      → cards p ≡ some shown
      → lookup name shown ≡ card_at (field_of (upstreams_of p.current) name)
  unfolding cards
  lookup-cards p shown name e =
      lookup-cards_from (entries_of (upstreams_of p.current)) shown name e
      ∙ ap card_at (lookup-entries_of (upstreams_of p.current) name)
