-- ===== src/Kat/Roundtrip.antt =====
-- crates/kat/src/lib.rs: what is written is read back, and what reading ignores.
use usg_authenticator.Prelude.{
  ℕ, ◌/◌, ◌%◌, ◌<◌, ◌≡◌, refl, List, [], ◌∷◌, false, length, some, ok, All, arith,
}
use usg_authenticator.Pacp.Octets.{IsOctet}
use usg_authenticator.Kat.{
  is_ascii_whitespace, to_digit, nibbles, pairs, from_hex, hex_digit, to_hex,
}

to_digit-hex_digit : (d : ℕ) → d < 16 → to_digit (hex_digit d) ≡ some d
unfolding to_digit hex_digit
to_digit-hex_digit d h = ground arith

hex_digit_visible : (d : ℕ) → d < 16 → is_ascii_whitespace (hex_digit d) ≡ false
unfolding is_ascii_whitespace hex_digit
hex_digit_visible d h = ground arith

abbrev digits_of : List ℕ → List ℕ
digits_of [] = []
digits_of (b ∷ bs) = (b / 16) ∷ (b % 16) ∷ digits_of bs

nibbles-to_hex : (bs : List ℕ) → All IsOctet bs → nibbles (to_hex bs) ≡ ok (digits_of bs)
unfolding nibbles to_hex
nibbles-to_hex [] h = refl
nibbles-to_hex (b ∷ bs) h =
    rw
      (
        hex_digit_visible (b / 16) (omega arith),
        hex_digit_visible (b % 16) (omega arith),
        to_digit-hex_digit (b / 16) (omega arith),
        to_digit-hex_digit (b % 16) (omega arith),
        nibbles-to_hex bs h.1,
      )
      refl

length-digits_of : (bs : List ℕ) → length (digits_of bs) % 2 ≡ 0
length-digits_of [] = refl
length-digits_of (b ∷ bs) = omega (arith, length-digits_of bs)

pairs-digits_of : (bs : List ℕ) → pairs (digits_of bs) ≡ bs
unfolding pairs
pairs-digits_of [] = refl
pairs-digits_of (b ∷ bs) = ground (arith, pairs-digits_of bs)

-- Octets that are written as hexadecimal text are read back as they were.
pub from_hex-to_hex : (bs : List ℕ) → All IsOctet bs → from_hex (to_hex bs) ≡ ok bs
unfolding from_hex
from_hex-to_hex bs h = rw (nibbles-to_hex bs h, length-digits_of bs, pairs-digits_of bs) refl
