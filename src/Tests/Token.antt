-- ===== src/Tests/Token.antt =====
-- The generated token at concrete inputs.
use mcpxy.Prelude.{ℕ, zero, suc, ◌<◌, ◌≡◌, refl, List, [], ◌∷◌, All, arith}
use mcpxy.Onboarding.Token.{generate_token}
use mcpxy.Onboarding.Token.Reading.{characters, bytes_in, generate_token_lem}

abbrev counting : ℕ → List ℕ
counting zero = []
counting (suc n) = suc n ∷ counting n

abbrev counting_bytes : List ℕ
counting_bytes = counting 32

counting_small : All (λ (b : ℕ). b < 256) counting_bytes
counting_small = omega arith

generate_token_lem_example :
    (characters (generate_token counting_bytes) ≡ 43)
    × (bytes_in (generate_token counting_bytes) ≡ counting_bytes)
generate_token_lem_example = generate_token_lem counting_bytes refl counting_small
