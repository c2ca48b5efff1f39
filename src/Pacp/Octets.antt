-- ===== src/Pacp/Octets.antt =====
-- Octets and the two big-endian octets of a 16-bit field (`u16::from_be_bytes`, `to_be_bytes`).
use usg_authenticator.Prelude.{ℕ, ◌+◌, ◌*◌, ◌/◌, ◌%◌, ◌<◌, ◌≡◌, List, [], ◌∷◌, arith}

abbrev pub IsOctet : ℕ → Type 0
IsOctet b = b < 256

abbrev pub from_be_bytes : ℕ → ℕ → ℕ
from_be_bytes hi lo = hi * 256 + lo

abbrev pub to_be_bytes : ℕ → List ℕ
to_be_bytes v = (v / 256) ∷ (v % 256) ∷ []

pub from_be_bytes-to_be_bytes : (v : ℕ) → from_be_bytes (v / 256) (v % 256) ≡ v
from_be_bytes-to_be_bytes v = omega arith

pub be_bytes_hi : (hi lo : ℕ) → lo < 256 → from_be_bytes hi lo / 256 ≡ hi
be_bytes_hi hi lo h = omega arith

pub be_bytes_lo : (hi lo : ℕ) → lo < 256 → from_be_bytes hi lo % 256 ≡ lo
be_bytes_lo hi lo h = omega arith
