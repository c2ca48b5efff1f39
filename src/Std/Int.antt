-- ===== src/Std/Int.antt =====
-- The signed numbers that system calls return.
use usg_authenticator.Prelude.{ℕ, Bool, true, false}

pub data ℤ : Type 0 where
  pos : ℕ → ℤ
  negsuc : ℕ → ℤ

-- `n < 0`
abbrev pub is_negative : ℤ → Bool
is_negative (pos n) = false
is_negative (negsuc n) = true

-- `usize::try_from(n).unwrap_or(0)`
abbrev pub usize_or_zero : ℤ → ℕ
usize_or_zero (pos n) = n
usize_or_zero (negsuc n) = 0
