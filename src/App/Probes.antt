-- ===== src/App/Probes.antt =====
-- What the client's handling of a 401 does to the probes of the session.
use mcpxy.Prelude.{String, true, false, some, [], ◌∷◌, ◌≡◌, none, arith}
use mcpxy.Api.Json.{Json, Thrown, api_error, err}
use mcpxy.Api.Types.{MeResponse, OnboardingStatus}
use mcpxy.Api.Client.{
  Storage, get_token, set_token, truthy_option, auth_headers, get_request, get, Response, response,
  Parsed, receive, forget_if_unauthorized, safe_text,
}
use mcpxy.App.{
  App, asking_me, asking_config, login, dashboard, view, ask, authed_effect, has_token,
  status_answered, cookie_answered, me_answered, logged_in, initial_app, on_status, handle, run,
  is_admin,
}

module _ (parse_json : String → Parsed) (as_me : Json → MeResponse) where
  receive-401 :
      (res : Response) (s : Storage)
      → s.writable ≡ true
      → res.status ≡ 401
      → (t : Thrown) × (after : Storage) × (receive parse_json (response res) s ≡ (err t, after))
        × (truthy_option (get_token after) ≡ false)
  unfolding receive forget_if_unauthorized get_token set_token
  receive-401 res s w e = (
    api_error res.status (safe_text parse_json res),
    forget_if_unauthorized res.status s,
    ground arith,
    ground arith,
  )

  -- The probe of `/admin/api/config` that is to serve legacy bearer tokens goes out without the
  -- token, whenever the server answered the probe of `/admin/api/authy/me` with 401 and the
  -- storage can be written: the client has removed the token before.
  pub fallback_without_token :
      (a : App) (res : Response)
      → a.probe ≡ asking_me
      → a.authed ≡ true
      → a.storage.writable ≡ true
      → res.status ≡ 401
      → let b = handle parse_json as_me a (me_answered (response res)) in
        (b.probe ≡ asking_config)
        × (b.sent
            ≡ record {
              method = get;
              path = "/admin/api/config";
              headers = ("Accept", "application/json") ∷ [];
              include_credentials = true;
              body = none;
            }
              ∷ a.sent)
  unfolding handle authed_effect ask get_request auth_headers
  fallback_without_token a res p auth w e =
      let (t, after, r, n) = receive-401 res a.storage w e in ground arith

  -- The probe for a session cookie is not cancelled by a login: where the status says that no
  -- set-up is required and no token is stored, a user who signs in with a token before the probe
  -- is answered is signed out again by its 401, and the new token is removed.
  pub late_cookie_probe :
      (storage after : Storage) (status : OnboardingStatus) (res : Response)
      → truthy_option (get_token storage) ≡ false
      → status.required ≡ false
      → after.writable ≡ true
      → res.status ≡ 401
      → let signed_in =
          run parse_json as_me
            (initial_app storage)
            (status_answered (some status) ∷ logged_in after ∷ []) in
        let later = handle parse_json as_me signed_in (cookie_answered (response res)) in
        (view signed_in ≡ dashboard false)
        × (view later ≡ login)
        × (auth_headers later.storage ≡ [])
  unfolding run handle on_status view ask authed_effect initial_app is_admin has_token auth_headers
  late_cookie_probe storage after status res n q w e =
      let (t, gone, r, g) = receive-401 res after w e in (ground arith, ground arith, ground arith)
