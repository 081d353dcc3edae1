-- ===== src/Api/Client/Token.antt =====
-- What the client guarantees about the stored token.
use mcpxy.Prelude.{
  ℕ, String, true, false, Option, none, [], ◌∷◌, ◌≡◌, refl, ◌↔◌, ◌⊎◌, arith, ◌&&◌, inl, inr, nat_eq,
  if◌then◌else◌, Bool-cases,
}
use mcpxy.Api.Json.{Json, err, api_error}
use mcpxy.Api.Client.{
  Storage, get_token, set_token, truthy_option, auth_headers, get_request, post_request,
  delete_request, Response, is_ok, Fetched, response, rejected, Parsed, safe_text, receive,
  finish_logout, forget_if_unauthorized,
}

-- Where the browser lets the page read its storage, reading back a written token gives the value
-- written, and `null` for an empty or missing one; where the page may not write, the old token
-- stays.
pub get_token-set_token :
    (value : Option String) (s : Storage)
    → s.readable ≡ true
    → get_token (set_token value s)
      ≡ (if s.writable then (if truthy_option value then value else none) else get_token s)
unfolding get_token set_token
get_token-set_token value s r = ground arith

auth_headers-eq-nil_iff :
    (s : Storage) → (auth_headers s ≡ []) ↔ (truthy_option (get_token s) ≡ false)
unfolding auth_headers
auth_headers-eq-nil_iff s = grind arith

-- The `Authorization` header of a request is built from the stored token and from nothing else: all
-- three verbs send it as their last header, and none is sent without a readable, non-empty token.
pub request-auth_headers :
    (path : String) (body : Option Json) (s : Storage)
    → ((get_request path s).headers ≡ ("Accept", "application/json") ∷ auth_headers s)
      × ((delete_request path s).headers ≡ (get_request path s).headers)
      × ((post_request path body s).headers
          ≡ ("Content-Type", "application/json") ∷ (get_request path s).headers)
      × ((auth_headers s ≡ []) ↔ (truthy_option (get_token s) ≡ false))
unfolding get_request post_request delete_request
request-auth_headers path body s = (refl, refl, refl, auth_headers-eq-nil_iff s)

forget-cases :
    (status : ℕ) (s : Storage)
    → (forget_if_unauthorized status s ≡ s)
      ⊎ ((forget_if_unauthorized status s ≡ record s { token = none })
          × (truthy_option (get_token s) ≡ true)
          × (status ≡ 401))
unfolding forget_if_unauthorized set_token
forget-cases status s = elim (Bool-cases s.writable) [
  | inr fixed ↦ inl (ground arith)
  | inl free ↦ elim (Bool-cases (nat_eq status 401 && truthy_option (get_token s))) [
    | inl stale ↦ inr (ground arith, ground arith, ground arith)
    | inr kept ↦ inl (ground arith)
  ]
]

module _ (parse_json : String → Parsed) where
  -- The answer of a call leaves the storage as it was, except that a 401 removes a token that can
  -- be read and is not empty; the caller then gets the error 401.
  pub receive-storage :
      (answer : Fetched) (s : Storage)
      → ((receive parse_json answer s).1 ≡ s)
        ⊎ (((receive parse_json answer s).1 ≡ record s { token = none })
            × (truthy_option (get_token s) ≡ true)
            × ((res : Response) × (answer ≡ response res)
                × (res.status ≡ 401)
                × ((receive parse_json answer s).0
                    ≡ err (api_error 401 (safe_text parse_json res)))))
  unfolding receive
  receive-storage (rejected message) s = inl refl
  receive-storage (response res) s = elim (forget-cases res.status s) [
    | inl same ↦ inl (ground arith)
    | inr (gone, had, e) ↦ elim (Bool-cases (is_ok res.status)) [
      | inl fine ↦ inl (rw fine)
      | inr failed ↦ inr (ground arith, had, (res, refl, e, ground arith))
    ]
  ]

  -- After a 401 the next request carries no credentials in its headers, if the storage can be
  -- written; after any other response it carries the same ones.
  pub auth_headers-receive :
      (res : Response) (s : Storage)
      → auth_headers (receive parse_json (response res) s).1
        ≡ (if nat_eq res.status 401 && s.writable then [] else auth_headers s)
  unfolding receive auth_headers
  auth_headers-receive res s = ground arith

  -- Signing out leaves no token behind whatever the server answers, if the storage can be
  -- written.
  pub get_token-finish_logout :
      (answer : Fetched) (s : Storage)
      → s.writable ≡ true
      → get_token (finish_logout parse_json answer s) ≡ none
  unfolding finish_logout get_token
  get_token-finish_logout (rejected message) s w = ground arith
  get_token-finish_logout (response res) s w = ground arith
