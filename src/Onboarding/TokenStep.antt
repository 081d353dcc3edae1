-- ===== src/Onboarding/TokenStep.antt =====
-- `TokenStep` of Onboarding.tsx, the earlier third step, which no other part of the file renders. Each
-- token that is generated comes with the event.
use mcpxy.Prelude.{
  ℕ, String, Bool, true, false, not, List, [], ◌∷◌, ◌++◌, ◌≡◌, ◌≤◌, refl, arith, ◌||◌, ltb, ◌⊎◌,
  inl, inr, utf16_length, foldl, Bool-cases, All, if◌then◌else◌,
}
use mcpxy.Onboarding.Token.{generate_token}

pub data Mode : Type 0 where
  generate paste : Mode

pub record Step : Type 0 where
  pub mode : Mode
  pub token : String
  pub copied : Bool
  pub ack : Bool
  -- What `onNext` was called with.
  pub saved : List String

unfoldable pub initial_step : (bytes : List ℕ) → Step
initial_step bytes = record {
  mode = generate;
  token = generate_token bytes;
  copied = false;
  ack = false;
  saved = [];
}

pub data Event : Type 0 where
  generate_clicked : (bytes : List ℕ) → Event
  paste_clicked : Event
  typed : String → Event
  new_clicked : (bytes : List ℕ) → Event
  copy_answered : (written : Bool) → Event
  copy_timer : Event
  ack_clicked : Bool → Event
  save_clicked : (busy : Bool) → Event

-- `token.length < 16`
unfoldable pub token_too_short : String → Bool
token_too_short token = ltb (utf16_length token) 16

unfoldable pub save_disabled : Bool → Step → Bool
unfolding token_too_short
save_disabled busy s = busy || token_too_short s.token || not s.ack

abbrev is_generate : Mode → Bool
is_generate generate = true
is_generate paste = false

-- The input is read only, and "New" is there, while a token is generated.
unfoldable pub handle : Step → Event → Step
unfolding save_disabled
handle s (generate_clicked bytes) = record s {
  mode = generate;
  token = generate_token bytes;
  ack = false;
}
handle s paste_clicked = record s { mode = paste; token = ""; ack = false }
handle s (typed text) = if is_generate s.mode then s else record s { token = text }
handle s (new_clicked bytes) =
    if is_generate s.mode then record s { token = generate_token bytes } else s
handle s (copy_answered written) = if written then record s { copied = true } else s
handle s copy_timer = record s { copied = false }
handle s (ack_clicked checked) = record s { ack = checked }
handle s (save_clicked busy) =
    if save_disabled busy s then s else record s { saved = s.saved ++ s.token ∷ [] }

abbrev pub run : Step → List Event → Step
run = foldl handle

abbrev pub IsLong : String → Type 0
IsLong token = 16 ≤ utf16_length token

All-snoc :
    (tokens : List String) (t : String)
    → All IsLong tokens
    → IsLong t
    → All IsLong (tokens ++ t ∷ [])
All-snoc [] t h k = (k, tt)
All-snoc (u ∷ tokens) t (h, hs) k = (h, All-snoc tokens t hs k)

token-IsLong : (busy : Bool) (s : Step) → save_disabled busy s ≡ false → IsLong s.token
unfolding save_disabled token_too_short
token-IsLong busy s e = ground arith

handle-saved :
    (s : Step) (e : Event)
    → ((handle s e).saved ≡ s.saved)
      ⊎ (IsLong s.token × ((handle s e).saved ≡ s.saved ++ s.token ∷ []))
unfolding handle
handle-saved s (save_clicked busy) = elim (Bool-cases (save_disabled busy s)) [
  | inl e ↦ inl (rw (e, handle) refl)
  | inr e ↦ inr (token-IsLong busy s e, rw (e, handle) refl)
]
handle-saved s (generate_clicked bytes) = inl refl
handle-saved s paste_clicked = inl refl
handle-saved s (typed text) = inl (ground arith)
handle-saved s (new_clicked bytes) = inl (ground arith)
handle-saved s (copy_answered written) = inl (ground arith)
handle-saved s copy_timer = inl refl
handle-saved s (ack_clicked checked) = inl refl

-- Whatever is clicked and typed, every token that the step hands over has 16 code units or more.
pub run-saved :
    (s : Step) (events : List Event) → All IsLong s.saved → All IsLong (run s events).saved
run-saved s [] h = h
run-saved s (e ∷ events) h = run-saved (handle s e) events (elim (handle-saved s e) [
  | inl same ↦ rw same h
  | inr (long, more) ↦ rw more (All-snoc s.saved s.token h long)
])

-- The box "I've saved this token" stays ticked when another token takes its place, so that a token is
-- saved that nobody has acknowledged.
new_token_acknowledged :
    (s : Step) (bytes : List ℕ)
    → s.mode ≡ generate
    → save_disabled false s ≡ false
    → token_too_short (generate_token bytes) ≡ false
    → (handle (handle s (new_clicked bytes)) (save_clicked false)).saved
      ≡ s.saved ++ generate_token bytes ∷ []
unfolding handle
new_token_acknowledged s bytes m e t = ground arith
