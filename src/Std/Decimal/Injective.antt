-- ===== src/Std/Decimal/Injective.antt =====
-- The decimal text of a number writes that number.
use usg_authenticator.Prelude.{
  ℕ, zero, suc, ◌+◌, ◌/◌, ◌%◌, ◌^◌, ◌<◌, ◌≡◌, refl, ◌∙◌, sym, ap, Text, [], ◌∷◌, arith, ◌⊎◌, inl,
  inr,
}
use usg_authenticator.Std.Parse.{value_from}
use usg_authenticator.Std.Decimal.{decimal_from, decimal}

zero-or-suc : (n : ℕ) → (n ≡ 0) ⊎ ((m : ℕ) × (n ≡ suc m))
zero-or-suc zero = inl refl
zero-or-suc (suc m) = inr (m, refl)

decimal_from-last :
    (fuel n : ℕ) (out : Text) → n / 10 ≡ 0 → decimal_from (suc fuel) n out ≡ (b'0' + n % 10) ∷ out
unfolding decimal_from
decimal_from-last fuel n out h = ground arith

decimal_from-more :
    (fuel n m : ℕ) (out : Text)
    → n / 10 ≡ suc m
    → decimal_from (suc fuel) n out ≡ decimal_from fuel (n / 10) ((b'0' + n % 10) ∷ out)
unfolding decimal_from
decimal_from-more fuel n m out h = ground arith

decimal_from_none : (out : Text) → value_from 0 (decimal_from 0 0 out) ≡ value_from 0 out
unfolding decimal_from
decimal_from_none out = refl

value_from-decimal_from :
    (fuel n : ℕ) (out : Text)
    → n < 10 ^ fuel
    → value_from 0 (decimal_from fuel n out) ≡ value_from n out
value_from-decimal_from zero n out h = nought (omega arith)
  where
    nought : n ≡ 0 → value_from 0 (decimal_from 0 n out) ≡ value_from n out
    nought z = rw z (decimal_from_none out)
value_from-decimal_from (suc fuel) n out h = elim (zero-or-suc (n / 10)) [
  | inl last ↦ rw (decimal_from-last fuel n out last) (ap (λ v. value_from v out) (omega arith))
  | inr (m, more) ↦ rw (decimal_from-more fuel n m out more) (
      value_from-decimal_from fuel (n / 10) ((b'0' + n % 10) ∷ out) (omega arith)
      ∙ ap (λ v. value_from v out) (omega arith))
]

-- Two numbers below 10^20 with the same decimal text are one number.
pub decimal-injective : (a b : ℕ) → a < 10 ^ 20 → b < 10 ^ 20 → decimal a ≡ decimal b → a ≡ b
unfolding decimal
decimal-injective a b ha hb e =
    sym (value_from-decimal_from 20 a [] ha)
    ∙ ap (value_from 0) e
    ∙ value_from-decimal_from 20 b [] hb
