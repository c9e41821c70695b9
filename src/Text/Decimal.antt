-- ===== src/Text/Decimal.antt =====
-- Numbers as `format!` prints them.
use contextd.Prelude.{ℕ, zero, suc, ◌+◌, ◌/◌, ◌%◌, [], ◌∷◌, ◌++◌, ltb, if◌then◌else◌}
use contextd.Prelude.Int.{ℤ, pos, negsuc}
use contextd.Text.{Text}

-- One digit for each unit of fuel; a number has fewer digits than it counts.
unfoldable pub decimal_from : ℕ → ℕ → Text
decimal_from zero n = []
decimal_from (suc f) n =
    let rest = decimal_from f (n / 10) in
    if ltb n 10 then (48 + n) ∷ [] else rest ++ (48 + n % 10) ∷ []

unfoldable pub decimal : ℕ → Text
unfolding decimal_from
decimal n = decimal_from (suc n) n

unfoldable pub int_decimal : ℤ → Text
unfolding decimal
int_decimal (pos n) = decimal n
int_decimal (negsuc n) = 45 ∷ decimal (suc n)
