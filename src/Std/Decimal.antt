-- ===== src/Std/Decimal.antt =====
-- The decimal text of a `u64`, as `{}` prints it: 20 digits are enough for every value.
pub mod Injective
use usg_authenticator.Prelude.{ℕ, zero, suc, ◌+◌, ◌/◌, ◌%◌, Text, [], ◌∷◌}

unfoldable pub decimal_from : ℕ → ℕ → Text → Text
decimal_from zero n out = out
decimal_from (suc fuel) n out =
    let digits = (b'0' + n % 10) ∷ out in
    elim (n / 10) [ zero ↦ digits | suc m ↦ decimal_from fuel (n / 10) digits ]

unfoldable pub decimal : ℕ → Text
unfolding decimal_from
decimal n = decimal_from 20 n []
