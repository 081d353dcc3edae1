-- ===== src/Mappings/Saving.antt =====
-- What saving a mapping sends, and what it leaves of the form.
use mcpxy.Prelude.{String, true, false, some, List, [], ◌∷◌, ◌≡◌, refl, arith, ap, All, ◌∙◌}
use mcpxy.Api.Json.{Json, Thrown, api_message_or, Result, ok, err}
use mcpxy.Mappings.{
  TokenMappingRow, Page, Event, loaded, add_clicked, submitted, cancel_clicked, upstream_typed,
  user_picked, token_typed, description_typed, create_answered, delete_clicked, delete_answered,
  sent_load, can_submit, create_call, handle_create, finish_create, handle, run,
}

-- The event edits, opens or closes the form.
abbrev pub IsEdit : Event → Type 0
IsEdit add_clicked = Unit
IsEdit cancel_clicked = Unit
IsEdit (upstream_typed s) = Unit
IsEdit (user_picked s) = Unit
IsEdit (token_typed s) = Unit
IsEdit (description_typed s) = Unit
IsEdit _ = ⊥

module _ (parse_int : String → Json) where
  edit-sent :
      (p : Page) (e : Event)
      → IsEdit e
      → ((handle parse_int p e).sent ≡ p.sent) × ((handle parse_int p e).busy ≡ p.busy)
  unfolding handle
  edit-sent p (loaded first mappings users) i = absurd i
  edit-sent p add_clicked i = (refl, refl)
  edit-sent p submitted i = absurd i
  edit-sent p cancel_clicked i = (refl, refl)
  edit-sent p (upstream_typed s) i = ground arith
  edit-sent p (user_picked s) i = ground arith
  edit-sent p (token_typed s) i = ground arith
  edit-sent p (description_typed s) i = ground arith
  edit-sent p (create_answered answer) i = absurd i
  edit-sent p (delete_clicked id confirmed) i = absurd i
  edit-sent p (delete_answered answer) i = absurd i

  edits-sent :
      (p : Page) (events : List Event)
      → All IsEdit events
      → ((run parse_int p events).sent ≡ p.sent) × ((run parse_int p events).busy ≡ p.busy)
  edits-sent p [] i = (refl, refl)
  edits-sent p (e ∷ events) (i, is_edit) =
      let (sent, busy) = edits-sent (handle parse_int p e) events is_edit in
      (sent ∙ (edit-sent p e i).0, busy ∙ (edit-sent p e i).1)

  submitted_lem :
      (p : Page) → can_submit p ≡ true → handle parse_int p submitted ≡ handle_create parse_int p
  unfolding handle
  submitted_lem p c = ground arith

  answered :
      (p : Page) (answer : Result TokenMappingRow)
      → p.busy ≡ true
      → handle parse_int p (create_answered answer) ≡ finish_create parse_int answer p
  unfolding handle
  answered p answer b = ground arith

  -- A mapping is saved as the form stood when it was submitted, with nothing else sent while its
  -- answer is awaited, whatever is typed, closed or opened meanwhile; a success closes the form
  -- and empties all four fields, also what was typed since, and asks for the tables anew; a
  -- failure leaves the form and its fields as they stand and shows its error. Either way the form
  -- can be submitted again. The form had its three required fields and no save was under way.
  pub create_outcome :
      (p : Page) (events : List Event) (row : TokenMappingRow) (e : Thrown)
      → can_submit p ≡ true
      → All IsEdit events
      → let r = run parse_int (handle parse_int p submitted) events in
        let saved = handle parse_int r (create_answered (ok row)) in
        let failed = handle parse_int r (create_answered (err e)) in
        (saved.sent ≡ sent_load (create_call parse_int p ∷ p.sent))
        × (saved.show_create ≡ false)
        × (saved.upstream ≡ "")
        × (saved.user_id ≡ "")
        × (saved.upstream_token ≡ "")
        × (saved.description ≡ "")
        × (saved.busy ≡ false)
        × (failed ≡ record r { error = some (api_message_or "Create failed" e); busy = false })
        × (failed.sent ≡ create_call parse_int p ∷ p.sent)
  unfolding finish_create handle_create
  create_outcome p events row e c i =
      let r : Page = run parse_int (handle parse_int p submitted) events in
      let sent : r.sent ≡ create_call parse_int p ∷ p.sent =
        (edits-sent _ events i).0 ∙ ap (λ (q : Page). q.sent) (submitted_lem p c) in
      let busy : r.busy ≡ true =
        (edits-sent _ events i).1 ∙ ap (λ (q : Page). q.busy) (submitted_lem p c) in
      rw (answered r (ok row) busy) (
        rw (answered r (err e) busy)
          (ap sent_load sent, refl, refl, refl, refl, refl, refl, refl, sent))
