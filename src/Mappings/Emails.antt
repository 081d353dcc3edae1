-- ===== src/Mappings/Emails.antt =====
-- The email by which a mapping's user is shown.
use mcpxy.Prelude.{true, List, [], ◌∷◌, ◌++◌, ◌≡◌, ◌≢◌, refl, arith, All, truthy, show, ◌<>◌}
use mcpxy.Users.{UserRow}
use mcpxy.Mappings.{user_email}

-- A mapping is shown with the email of the first user that has its user's number, whatever users
-- follow, and with the number itself as long as no user has it. The email is not empty.
pub user_email_lem :
    (u : UserRow) (before after : List UserRow)
    → All (λ (other : UserRow). other.id ≢ u.id) before
    → truthy u.email ≡ true
    → (user_email (before ++ (u ∷ after)) u.id ≡ u.email)
      × (user_email before u.id ≡ "user#" <> show u.id)
unfolding user_email
user_email_lem u [] after f given = (ground arith, refl)
user_email_lem u (other ∷ before) after (f, fs) given =
    ground (arith, user_email_lem u before after fs given)
