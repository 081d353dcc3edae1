-- ===== src/Browse/Search.antt =====
-- What the search lets through.
use text.Mathlib.TextLemmas.{cons-append, nil-append, append-nil}
use mcpxy.Prelude.{
  String, Char, code, Bool, true, false, some, List, [], ◌∷◌, ◌≡◌, ◌≢◌, ◌⊎◌, ◌↔◌, inl, inr, refl,
  sym, ap, ◌∙◌, arith, ◌&&◌, All, all, filter, truthy_iff, truthy-cases, eq_iff, is_space, trim,
  ◌<>◌, includes, includes_iff, includes-empty, Contains,
}
use mcpxy.Api.Types.{CatalogEntry, CatalogResponse}
use mcpxy.Manual.Payload.{split_at}
use mcpxy.Browse.{join_from, search_parts, hay_of, matches_query, filtered}

-- No character is white space.
abbrev pub IsSolid : String → Type 0
IsSolid String.[] = Unit
IsSolid (String.◌∷◌ c s) = (is_space (code c) ≡ false) × IsSolid s

abbrev pub IsWord : String → Type 0
IsWord w = IsSolid w × (w ≢ "")

abbrev pub IsBlank : String → Type 0
IsBlank String.[] = Unit
IsBlank (String.◌∷◌ c s) = (is_space (code c) ≡ true) × IsBlank s

-- White space, one character at least.
abbrev pub IsGap : String → Type 0
IsGap String.[] = ⊥
IsGap (String.◌∷◌ c s) = (is_space (code c) ≡ true) × IsBlank s

-- The text is the words, with white space between them.
pub data IsSentence : List String → String → Type 0 where
  blank : IsSentence [] ""
  last : {w : String} → IsWord w → IsSentence (w ∷ []) w
  more :
      {w v s : String} {words : List String} (gap : String)
      → IsWord w
      → IsGap gap
      → IsSentence (v ∷ words) s
      → IsSentence (w ∷ v ∷ words) (w <> (gap <> s))

abbrev pub tags_text : List String → String
tags_text [] = ""
tags_text (tag ∷ tags) = " " <> (tag <> tags_text tags)

-- Every part of the query is found.
abbrev found : String → String → Bool
found hay q = all (λ part. includes hay part) (search_parts q)

found-solid : (hay w : String) → IsSolid w → search_parts w ≡ w ∷ []
unfolding search_parts split_at
found-solid hay String.[] h = refl
found-solid hay (String.◌∷◌ c w) (n, h) = rw n (rw (found-solid hay w h) refl)

parts-append :
    (w rest : String) (c : Char)
    → IsSolid w
    → is_space (code c) ≡ true
    → search_parts (w <> String.◌∷◌ c rest) ≡ w ∷ search_parts rest
unfolding search_parts split_at
parts-append String.[] rest c h e = rw (nil-append) (ground arith)
parts-append (String.◌∷◌ d w) rest c (n, h) e =
    rw (cons-append d w (String.◌∷◌ c rest)) (ground (arith, parts-append w rest c h e))

found-blank : (hay gap s : String) → IsBlank gap → found hay (gap <> s) ≡ found hay s
unfolding search_parts split_at
found-blank hay String.[] s b = rw (nil-append s) refl
found-blank hay (String.◌∷◌ c gap) s (e, b) =
    rw (cons-append c gap s) (rw e (rw (includes-empty hay) (found-blank hay gap s b)))

found-more :
    (hay w gap s : String)
    → IsSolid w
    → IsGap gap
    → found hay (w <> (gap <> s)) ≡ includes hay w && found hay s
found-more hay w String.[] s h g = absurd g
found-more hay w (String.◌∷◌ c gap) s h (e, b) =
    rw (cons-append c gap s) (
      rw (parts-append w (gap <> s) c h e)
        (ap (λ b. includes hay w && b) (found-blank hay gap s b)))

found-empty : (hay : String) → found hay "" ≡ true
unfolding search_parts split_at
found-empty hay = rw (includes-empty hay) refl

found-sentence :
    (hay q : String) (words : List String)
    → IsSentence words q
    → found hay q ≡ all (λ word. includes hay word) words
found-sentence hay q words blank = found-empty hay
found-sentence hay q words (last (solid, n)) = rw (found-solid hay q solid) refl
found-sentence hay q words (more {w = w} {v = v} {s = s} {words = others} gap (solid, n) g rest) =
    found-more hay w gap s solid g
    ∙ ap (λ b. includes hay w && b) (found-sentence hay s (v ∷ others) rest)

all-includes_iff :
    (hay : String) (parts : List String)
    → (all (λ part. includes hay part) parts ≡ true) ↔ All (Contains hay) parts
all-includes_iff hay [] = (λ h. tt, λ h. refl)
all-includes_iff hay (part ∷ parts) =
    ground (arith, includes_iff hay part, all-includes_iff hay parts)

found_iff :
    (hay q : String) (words : List String)
    → IsSentence words q
    → (found hay q ≡ true) ↔ All (Contains hay) words
found_iff hay q words h = rw (found-sentence hay q words h) (all-includes_iff hay words)

join_from-tags :
    (first : String) (tags : List String) → join_from first tags ≡ first <> tags_text tags
unfolding join_from
join_from-tags first [] = sym (append-nil first)
join_from-tags first (tag ∷ tags) = ap (λ s. first <> (" " <> s)) (join_from-tags tag tags)

module _ (to_lower_case : String → String) where
  -- What is searched of an entry.
  abbrev pub searched : CatalogEntry → String
  searched entry =
      to_lower_case
        (entry.id <> (" " <> (entry.name <> (" " <> (entry.description <> tags_text entry.tags)))))

  hay_of-searched : (entry : CatalogEntry) → hay_of to_lower_case entry ≡ searched entry
  unfolding hay_of join_from
  hay_of-searched entry =
      ap (λ s. to_lower_case (entry.id <> (" " <> (entry.name <> (" " <> s)))))
        (join_from-tags entry.description entry.tags)

  -- The entry is of the category, if one is chosen, and every word stands in its text.
  abbrev pub IsShown : String → List String → CatalogEntry → Type 0
  IsShown category words entry =
      ((category ≡ "") ⊎ (entry.category ≡ category)) × All (Contains (searched entry)) words

  matches_query_iff :
      (q category : String) (words : List String) (entry : CatalogEntry)
      → IsSentence words q
      → (matches_query to_lower_case q category entry ≡ true) ↔ IsShown category words entry
  unfolding matches_query
  matches_query_iff q category words entry h = rw (hay_of-searched entry) (
      let hay = searched entry in
      elim (truthy-cases q) [
        | inl (filled, n) ↦
            ground
              (arith, found_iff hay q words h, truthy_iff category, eq_iff entry.category category)
        | inr (empty, e) ↦ ground (
          arith,
          found_iff hay q words h,
          ap (found hay) e ∙ found-empty hay,
          truthy_iff category,
          eq_iff entry.category category,
        )
      ])

  -- Where the trimmed query is, in lower case, some words with white space between them, the page
  -- lists the entries of the catalog, in its order, that are of the chosen category, if one is
  -- chosen, and in whose lowercase text every word stands: id, name, description and tags.
  pub filtered_exact :
      (catalog : CatalogResponse) (query category : String) (words : List String)
      → IsSentence words (to_lower_case (trim query))
      → (shows : CatalogEntry → Bool) × (filtered to_lower_case (some catalog) query category
          ≡ filter shows catalog.entries)
        × ((entry : CatalogEntry) → (shows entry ≡ true) ↔ IsShown category words entry)
  unfolding filtered
  filtered_exact catalog query category words h = (
    matches_query to_lower_case (to_lower_case (trim query)) category,
    refl,
    λ entry. matches_query_iff (to_lower_case (trim query)) category words entry h,
  )
