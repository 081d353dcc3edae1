-- ===== src/Login/Outcome.antt =====
-- What a submission of the login form leaves behind.
use mcpxy.Prelude.{
  true, false, Option, none, [], ◌∷◌, ◌≡◌, ◌≢◌, ◌⊎◌, inl, inr, refl, arith, truthy, ◌<>◌,
}
use Prim.Native.String.{String, [], ◌∷◌}
use mcpxy.Api.Json.{Json, Result, ok, err}
use mcpxy.Api.Client.{
  Storage, get_token, set_token, auth_headers, get_request, Fetched, Parsed, receive,
}
use mcpxy.Login.{Gate, start_legacy, end_legacy, finish_legacy}

abbrev pub IsOk : {A : Type 0} → Result A → Type 0
IsOk (ok a) = Unit
IsOk (err e) = ⊥

-- The probe of a pasted token carries that token, where the storage can be read and written, and
-- no credentials if none was pasted.
pub start_legacy-headers :
    (g : Gate)
    → g.storage.readable ≡ true
    → g.storage.writable ≡ true
    → ((truthy g.legacy_token ≡ true)
        × ((start_legacy g).1.headers
            ≡ ("Accept", "application/json") ∷ ("Authorization", "Bearer " <> g.legacy_token) ∷ []))
      ⊎ ((truthy g.legacy_token ≡ false)
          × ((start_legacy g).1.headers ≡ ("Accept", "application/json") ∷ []))
unfolding start_legacy get_request auth_headers set_token
start_legacy-headers g r w = by_token g.legacy_token
  where
    by_token :
        (t : String)
        → ((truthy t ≡ true)
            × ((start_legacy (record g { legacy_token = t })).1.headers
                ≡ ("Accept", "application/json") ∷ ("Authorization", "Bearer " <> t) ∷ []))
          ⊎ ((truthy t ≡ false)
              × ((start_legacy (record g { legacy_token = t })).1.headers
                  ≡ ("Accept", "application/json") ∷ []))
    by_token [] = inr (refl, ground arith)
    by_token (c ∷ s) = inl (refl, ground arith)

module _ (parse_json : String → Parsed) (token_of url_of : Json → Result (Option String)) where
  end_legacy_lem :
      (result : Result Json) (storage : Storage) (g : Gate)
      → storage.writable ≡ true
      → let (after, authed) = end_legacy parse_json token_of url_of (result, storage) g in
        (after.busy ≡ false)
        × (((authed ≡ true) × IsOk result × (after.storage ≡ storage))
            ⊎ ((authed ≡ false) × (get_token after.storage ≡ none) × (after.error ≢ none)))
  unfolding end_legacy get_token set_token
  end_legacy_lem (ok data_) storage g w = (refl, inl (refl, tt, refl))
  end_legacy_lem (err e) storage g w = (refl, inr (refl, ground arith, λ p. cc))

  -- A pasted token is kept only if the server answered the probe with success: otherwise no token
  -- is left, if the storage can be written, and an error is shown. The form is ready again.
  pub finish_legacy_outcome :
      (answer : Fetched) (g : Gate)
      → (receive parse_json answer g.storage).1.writable ≡ true
      → let (after, authed) = finish_legacy parse_json token_of url_of answer g in
        (after.busy ≡ false)
        × (((authed ≡ true)
              × IsOk (receive parse_json answer g.storage).0
              × (after.storage ≡ (receive parse_json answer g.storage).1))
            ⊎ ((authed ≡ false) × (get_token after.storage ≡ none) × (after.error ≢ none)))
  unfolding finish_legacy
  finish_legacy_outcome answer g w =
      end_legacy_lem (receive parse_json answer g.storage).0 (receive parse_json answer g.storage).1
        g w
