-- ===== src/Users/Inviting.antt =====
-- What the dialog invites, and what becomes of its answer.
use mcpxy.Prelude.{String, true, false, none, List, [], ◌∷◌, ◌≡◌, ◌⊎◌, inl, inr, refl, arith, All}
use mcpxy.Api.Json.{ok}
use mcpxy.Users.{
  InviteResponse, Role, list_users, invite_user, Page, Event, invite_clicked, submitted,
  close_clicked, email_typed, role_picked, invite_answered, visible_invite, form_shown, handle,
  handle_invite, run,
}

abbrev pub NotSubmitted : Event → Type 0
NotSubmitted submitted = ⊥
NotSubmitted _ = Unit

-- A dialog that is closed holds an invitation that it never shows again.
record IsHidden (p : Page) : Type 0 where
  pub idle : p.busy ≡ false
  pub hidden : (p.show_invite ≡ false) ⊎ (p.invite_result ≡ none)

handle-IsHidden : (p : Page) (e : Event) → NotSubmitted e → IsHidden p → IsHidden (handle p e)
unfolding handle
handle-IsHidden p invite_clicked n v = record { idle = v.idle; hidden = inr refl }
handle-IsHidden p submitted n v = absurd n
handle-IsHidden p close_clicked n v = record { idle = v.idle; hidden = inl refl }
handle-IsHidden p (invite_answered answer) n v =
    rw (v.idle, handle) record { idle = refl; hidden = v.hidden }
handle-IsHidden p e n v = ground arith

run-IsHidden :
    (p : Page) (events : List Event)
    → All NotSubmitted events
    → IsHidden p
    → IsHidden (run p events)
run-IsHidden p [] n v = v
run-IsHidden p (e ∷ events) (n, ns) v =
    run-IsHidden (handle p e) events ns (handle-IsHidden p e n v)

visible_invite-IsHidden : (p : Page) → IsHidden p → visible_invite p ≡ none
unfolding visible_invite
visible_invite-IsHidden p v = ground arith

answered-IsHidden :
    (p : Page) (invite : InviteResponse)
    → p.busy ≡ true
    → IsHidden (run p (close_clicked ∷ invite_answered (ok invite) ∷ []))
unfolding handle
answered-IsHidden p invite b = rw b record { idle = refl; hidden = inl refl }

-- Where the dialog is closed while an invitation is being created, the token of the invitation is
-- never shown, whatever happens until the form is submitted again.
pub cancelled_invite_hidden :
    (p : Page) (invite : InviteResponse) (events : List Event)
    → p.busy ≡ true
    → All NotSubmitted events
    → visible_invite (run p (close_clicked ∷ invite_answered (ok invite) ∷ events)) ≡ none
cancelled_invite_hidden p invite events b n =
    visible_invite-IsHidden (run p (close_clicked ∷ invite_answered (ok invite) ∷ events))
      (run-IsHidden _ events n (answered-IsHidden p invite b))

submitted_sends :
    (p : Page) → form_shown p ≡ true → p.busy ≡ false → handle p submitted ≡ handle_invite p
unfolding handle
submitted_sends p f b = ground arith

picked :
    (p : Page) (role : Role)
    → form_shown p ≡ true
    → handle p (role_picked role) ≡ record p { invite_role = role }
unfolding handle
picked p role f = ground arith

-- The role that is picked for one invitation is the role of the next one: once an invitation has
-- been created and its dialog closed, a new dialog to which only an email is given sends that
-- email with the role of the first invitation, whichever it was.
pub role_carried :
    (p : Page) (role : Role) (invite : InviteResponse) (email : String)
    → form_shown p ≡ true
    → p.busy ≡ false
    → (run p (
        role_picked role
        ∷ submitted
        ∷ invite_answered (ok invite)
        ∷ close_clicked
        ∷ invite_clicked
        ∷ email_typed email
        ∷ submitted
        ∷ [])).sent
      ≡ invite_user email role ∷ list_users ∷ invite_user p.invite_email role ∷ p.sent
unfolding handle form_shown
role_carried p role invite email f b =
    rw (picked p role f) (rw (submitted_sends (record p { invite_role = role }) f b) refl)
