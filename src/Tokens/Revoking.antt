-- ===== src/Tokens/Revoking.antt =====
-- What the page asks to revoke.
use mcpxy.Prelude.{ℕ, String, List, [], ◌∷◌, ◌≡◌, refl, arith, ◌∙◌, if◌then◌else◌}
use mcpxy.Api.Json.{Json, ok, err}
use mcpxy.Tokens.{
  Call, list_pats, create_pat, revoke_pat, Page, Event, loaded, new_clicked, submitted,
  close_clicked, name_typed, ttl_typed, create_answered, revoke_clicked, revoke_answered, handle,
  run,
}

-- The tokens that were asked to be revoked, the latest first.
abbrev pub revoked_in : List Call → List ℕ
revoked_in [] = []
revoked_in (list_pats ∷ sent) = revoked_in sent
revoked_in (create_pat name ttl ∷ sent) = revoked_in sent
revoked_in (revoke_pat id ∷ sent) = id ∷ revoked_in sent

abbrev pub confirmed_by : Event → List ℕ → List ℕ
confirmed_by (revoke_clicked id confirmed) ids = if confirmed then id ∷ ids else ids
confirmed_by _ ids = ids

-- The tokens whose revocation was confirmed, after those of `ids`, the latest first.
abbrev pub confirmed_from : List ℕ → List Event → List ℕ
confirmed_from ids [] = ids
confirmed_from ids (e ∷ events) = confirmed_from (confirmed_by e ids) events

module _ (parse_int : String → Json) where
  revoked-handle :
      (p : Page) (e : Event)
      → revoked_in (handle parse_int p e).sent ≡ confirmed_by e (revoked_in p.sent)
  unfolding handle
  revoked-handle p (loaded (ok rows)) = refl
  revoked-handle p (loaded (err e)) = refl
  revoked-handle p new_clicked = refl
  revoked-handle p submitted = ground arith
  revoked-handle p close_clicked = refl
  revoked-handle p (name_typed s) = ground arith
  revoked-handle p (ttl_typed s) = ground arith
  revoked-handle p (create_answered (ok row)) = ground arith
  revoked-handle p (create_answered (err e)) = ground arith
  revoked-handle p (revoke_clicked id confirmed) = ground arith
  revoked-handle p (revoke_answered (ok body)) = refl
  revoked-handle p (revoke_answered (err e)) = refl

  -- The page asks to revoke exactly the tokens whose revocation was confirmed, each as often and
  -- in the order in which it was confirmed, on any events.
  pub revoked-run :
      (p : Page) (events : List Event)
      → revoked_in (run parse_int p events).sent ≡ confirmed_from (revoked_in p.sent) events
  revoked-run p [] = refl
  revoked-run p (e ∷ events) =
      revoked-run (handle parse_int p e) events ∙ rw (revoked-handle p e) refl
