-- ===== src/Tokens/Dialog.antt =====
-- The dialog that creates a token and shows it once.
use mcpxy.Prelude.{
  String, true, false, none, some, List, [], ◌∷◌, ◌≡◌, ◌⊎◌, inl, inr, refl, arith, All,
}
use mcpxy.Api.Json.{Json, ok, err}
use mcpxy.Tokens.{
  PatRow, Page, Event, loaded, new_clicked, submitted, close_clicked, name_typed, ttl_typed,
  create_answered, revoke_clicked, revoke_answered, plaintext_of, visible_token, form_shown, handle,
  run,
}

-- The event does not open, close or answer the dialog.
abbrev pub IsQuiet : Event → Type 0
IsQuiet new_clicked = ⊥
IsQuiet close_clicked = ⊥
IsQuiet (create_answered answer) = ⊥
IsQuiet _ = Unit

abbrev pub NotSubmitted : Event → Type 0
NotSubmitted submitted = ⊥
NotSubmitted _ = Unit

-- A dialog that is closed holds a token that it never shows again: opening it forgets the token.
record IsHidden (p : Page) : Type 0 where
  pub idle : p.busy ≡ false
  pub hidden : (p.show_create ≡ false) ⊎ (p.created ≡ none)

module _ (parse_int : String → Json) where
  handle-IsHidden :
      (p : Page) (e : Event) → NotSubmitted e → IsHidden p → IsHidden (handle parse_int p e)
  unfolding handle
  handle-IsHidden p (loaded (ok rows)) n v = ground arith
  handle-IsHidden p (loaded (err e)) n v = ground arith
  handle-IsHidden p new_clicked n v = record { idle = v.idle; hidden = inr refl }
  handle-IsHidden p submitted n v = absurd n
  handle-IsHidden p close_clicked n v = record { idle = v.idle; hidden = inl refl }
  handle-IsHidden p (name_typed s) n v = ground arith
  handle-IsHidden p (ttl_typed s) n v = ground arith
  handle-IsHidden p (create_answered answer) n v =
      rw (v.idle, handle) record { idle = refl; hidden = v.hidden }
  handle-IsHidden p (revoke_clicked id confirmed) n v = ground arith
  handle-IsHidden p (revoke_answered (ok body)) n v = ground arith
  handle-IsHidden p (revoke_answered (err e)) n v = ground arith

  run-IsHidden :
      (p : Page) (events : List Event)
      → All NotSubmitted events
      → IsHidden p
      → IsHidden (run parse_int p events)
  run-IsHidden p [] n v = v
  run-IsHidden p (e ∷ events) (n, ns) v =
      run-IsHidden (handle parse_int p e) events ns (handle-IsHidden p e n v)

  visible_token-IsHidden : (p : Page) → IsHidden p → visible_token p ≡ none
  unfolding visible_token
  visible_token-IsHidden p v = ground arith

  -- Where the dialog is closed while a token is being created, the token that the answer brings is
  -- never shown, whatever happens until the form is submitted again.
  pub cancelled_create_hidden :
      (p : Page) (row : PatRow) (events : List Event)
      → p.busy ≡ true
      → All NotSubmitted events
      → visible_token (run parse_int p (close_clicked ∷ create_answered (ok row) ∷ events)) ≡ none
  cancelled_create_hidden p row events b n =
      visible_token-IsHidden (run parse_int p (close_clicked ∷ create_answered (ok row) ∷ events))
        (run-IsHidden _ events n answered)
    where
      answered : IsHidden (run parse_int p (close_clicked ∷ create_answered (ok row) ∷ []))
      answered = unfold handle in rw b record { idle = refl; hidden = inl refl }

  handle-waiting :
      (p : Page) (e : Event)
      → IsQuiet e
      → (p.busy ≡ true) × (p.show_create ≡ true)
      → ((handle parse_int p e).busy ≡ true) × ((handle parse_int p e).show_create ≡ true)
  unfolding handle
  handle-waiting p (loaded (ok rows)) q v = v
  handle-waiting p (loaded (err e)) q v = v
  handle-waiting p new_clicked q v = absurd q
  handle-waiting p submitted q v = ground arith
  handle-waiting p close_clicked q v = absurd q
  handle-waiting p (name_typed s) q v = ground arith
  handle-waiting p (ttl_typed s) q v = ground arith
  handle-waiting p (create_answered answer) q v = absurd q
  handle-waiting p (revoke_clicked id confirmed) q v = ground arith
  handle-waiting p (revoke_answered (ok body)) q v = v
  handle-waiting p (revoke_answered (err e)) q v = v

  run-waiting :
      (p : Page) (events : List Event)
      → All IsQuiet events
      → (p.busy ≡ true) × (p.show_create ≡ true)
      → ((run parse_int p events).busy ≡ true) × ((run parse_int p events).show_create ≡ true)
  run-waiting p [] q v = v
  run-waiting p (e ∷ events) (q, qs) v =
      run-waiting (handle parse_int p e) events qs (handle-waiting p e q v)

  -- While the dialog shows a token, the form is not there to be submitted.
  handle-shown :
      (p : Page) (e : Event) (text : String)
      → IsQuiet e
      → visible_token p ≡ some text
      → visible_token (handle parse_int p e) ≡ some text
  unfolding handle visible_token
  handle-shown p (loaded (ok rows)) text q v = v
  handle-shown p (loaded (err e)) text q v = v
  handle-shown p new_clicked text q v = absurd q
  handle-shown p submitted text q v = ground arith
  handle-shown p close_clicked text q v = absurd q
  handle-shown p (name_typed s) text q v = ground arith
  handle-shown p (ttl_typed s) text q v = ground arith
  handle-shown p (create_answered answer) text q v = absurd q
  handle-shown p (revoke_clicked id confirmed) text q v = ground arith
  handle-shown p (revoke_answered (ok body)) text q v = v
  handle-shown p (revoke_answered (err e)) text q v = v

  run-shown :
      (p : Page) (events : List Event) (text : String)
      → All IsQuiet events
      → visible_token p ≡ some text
      → visible_token (run parse_int p events) ≡ some text
  run-shown p [] text q v = v
  run-shown p (e ∷ events) text (q, qs) v =
      run-shown (handle parse_int p e) events text qs (handle-shown p e text q v)

  answer-shown :
      (p : Page) (row : PatRow) (text : String)
      → plaintext_of (some row) ≡ some text
      → (p.busy ≡ true) × (p.show_create ≡ true)
      → visible_token (handle parse_int p (create_answered (ok row))) ≡ some text
  unfolding handle visible_token
  answer-shown p row text r v = ground arith

  submitted-waiting :
      (p : Page)
      → form_shown p ≡ true
      → p.busy ≡ false
      → ((handle parse_int p submitted).busy ≡ true)
        × ((handle parse_int p submitted).show_create ≡ true)
  unfolding handle
  submitted-waiting p f b = ground arith

  -- A form that is submitted while no other create is under way leads to its token: once the
  -- answer has come, whatever was loaded, typed or revoked before it, the dialog shows the token
  -- that it brought, and goes on showing it until the dialog is closed or opened anew. The answer
  -- brings a token that is not the empty text.
  pub created_shown :
      (p : Page) (row : PatRow) (text : String) (before after : List Event)
      → form_shown p ≡ true
      → p.busy ≡ false
      → plaintext_of (some row) ≡ some text
      → All IsQuiet before
      → All IsQuiet after
      → visible_token (
          run parse_int
            (handle parse_int
              (run parse_int (handle parse_int p submitted) before)
              (create_answered (ok row)))
            after)
        ≡ some text
  created_shown p row text before after f b r q s = run-shown _ after text s (
      answer-shown _ row text r
        (run-waiting (handle parse_int p submitted) before q (submitted-waiting p f b)))
