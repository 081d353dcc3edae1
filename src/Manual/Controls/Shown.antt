-- ===== src/Manual/Controls/Shown.antt =====
-- What the dialog sends is what it shows.
use Prim.Native.String.{[], ◌∷◌}
use mcpxy.Prelude.{
  Bool, String, none, some, any, or_else, or_null, List, [], ◌∷◌, ◌++◌, true, false, Option, ◌≡◌,
  refl, arith,
}
use mcpxy.Api.Types.{http}
use mcpxy.Numbers.{Numbers}
use mcpxy.Manual.Payload.{
  oauth2_auth, Form, build_auth_payload, build_payload, ManualUpstreamConfig, http_config, oauth2,
  auth_complete, can_submit,
}
use mcpxy.Manual.Submit.{submit_body}
use mcpxy.Manual.Controls.{Control, input, replace_box, auth_controls, transport_controls, controls}

auth_controls-payload :
    (f g : Form)
    → f.auth_type ≡ g.auth_type
    → auth_controls f ≡ auth_controls g
    → (build_auth_payload f ≡ build_auth_payload g) × (auth_complete f ≡ auth_complete g)
unfolding auth_controls build_auth_payload auth_complete
auth_controls-payload f g e h = ground arith

transport_controls-payload :
    (numbers : Numbers) (f g : Form)
    → f.transport ≡ g.transport
    → transport_controls f ≡ transport_controls g
    → (build_payload numbers f ≡ build_payload numbers g)
unfolding transport_controls build_payload
transport_controls-payload numbers f g e h = ground (arith, auth_controls-payload f g)

transport_controls-can_submit :
    (f g : Form)
    → f.name ≡ g.name
    → f.transport ≡ g.transport
    → transport_controls f ≡ transport_controls g
    → can_submit f ≡ can_submit g
unfolding transport_controls can_submit
transport_controls-can_submit f g n e h = ground (arith, auth_controls-payload f g)

snoc_inj :
    (cs ds : List Control) (a b : Control) → cs ++ a ∷ [] ≡ ds ++ b ∷ [] → (cs ≡ ds) × (a ≡ b)
snoc_inj [] [] a b h = ground arith
snoc_inj [] (d ∷ []) a b h = ground arith
snoc_inj [] (d ∷ (e ∷ ds)) a b h = ground arith
snoc_inj (c ∷ []) [] a b h = ground arith
snoc_inj (c ∷ (e ∷ cs)) [] a b h = ground arith
snoc_inj (c ∷ cs) (d ∷ ds) a b h = ground (arith, snoc_inj cs ds a b)

-- What is sent is what is shown: two states of the dialog that show the same controls with the same
-- values send the same request, and have the same answer to whether it can be sent. What was typed
-- into a control that is hidden since plays no part.
pub submit_body-controls :
    (numbers : Numbers) (f g : Form) (replace other : Bool)
    → controls f replace ≡ controls g other
    → (submit_body numbers f replace ≡ submit_body numbers g other) × (can_submit f ≡ can_submit g)
unfolding controls submit_body
submit_body-controls numbers f g replace other h =
    let n : f.name ≡ g.name = ground arith in
    let t : f.transport ≡ g.transport = ground arith in
    let rest : transport_controls f ++ replace_box replace ∷ []
        ≡ transport_controls g ++ replace_box other ∷ [] =
      ground arith in
    let (c, box) =
      snoc_inj (transport_controls f) (transport_controls g) (replace_box replace)
        (replace_box other) rest in
    let r : replace ≡ other = ground arith in
    (
      ground (arith, transport_controls-payload numbers f g t c),
      transport_controls-can_submit f g n t c,
    )

is_disabled : Control → Bool
is_disabled (input label value disabled) = disabled
is_disabled _ = false

client_id_sent : (numbers : Numbers) → ManualUpstreamConfig numbers → Option String
client_id_sent numbers
      (http_config url timeout_s headers (
        some (
          oauth2 issuer authorization_endpoint token_endpoint client_id client_secret scopes
            dynamic_registration))) =
    client_id
client_id_sent numbers _ = none

or_null_text : (s : String) → or_else (or_null s) "" ≡ s
or_null_text [] = refl
or_null_text (c ∷ s) = refl

-- Where the client is to be registered dynamically, the inputs of its id and its secret are
-- disabled, and an id that was typed before is sent all the same.
disabled_client_sent :
    (numbers : Numbers) (f : Form) (replace : Bool)
    → f.transport ≡ http
    → f.auth_type ≡ oauth2_auth
    → f.oauth_dynamic_reg ≡ true
    → (any is_disabled (controls f replace) ≡ true)
      × (or_else (client_id_sent numbers (build_payload numbers f)) "" ≡ f.oauth_client_id)
unfolding controls transport_controls auth_controls build_payload build_auth_payload client_id_sent
    is_disabled
disabled_client_sent numbers f replace t a d = (
  rw (t, a, d, controls, transport_controls, auth_controls) refl,
  rw (t, build_payload, a, build_auth_payload) (or_null_text f.oauth_client_id),
)
