-- ===== src/Kat.antt =====
-- crates/kat/src/lib.rs: known-answer vectors as hexadecimal text.
pub mod Roundtrip
pub mod Display
use usg_authenticator.Prelude.{
  ℕ, ◌+◌, ◌-◌, ◌*◌, ◌/◌, ◌%◌, List, [], ◌∷◌, ◌++◌, Text, Bool, true, false, not, ◌&&◌, ◌||◌, ◌==◌,
  ltb, leb, length, if◌then◌else◌, Option, none, some, Result, ok, err, ok_or, ◌>>=◌,
}

pub data HexError : Type 0 where
  odd_length : HexError
  bad_digit : ℕ → HexError

-- `char::is_ascii_whitespace`
unfoldable pub is_ascii_whitespace : ℕ → Bool
is_ascii_whitespace c = c == 32 || c == 9 || c == 10 || c == 12 || c == 13

abbrev between : ℕ → ℕ → ℕ → Bool
between lo hi c = leb lo c && leb c hi

-- `char::to_digit(16)`
unfoldable pub to_digit : ℕ → Option ℕ
to_digit c =
    if between b'0' b'9' c
    then some (c - b'0')
    else if between b'a' b'f' c
    then some (c - b'a' + 10)
    else if between b'A' b'F' c
    then some (c - b'A' + 10)
    else none

-- The loop over the characters.
unfoldable pub nibbles : Text → Result HexError (List ℕ)
nibbles [] = ok []
nibbles (c ∷ s) =
    let rest = nibbles s in
    if is_ascii_whitespace c
    then rest
    else (do v ← ok_or (to_digit c) (bad_digit c); vs ← rest; ok (v ∷ vs))

-- `chunks_exact(2)`; a low digit fills the four bits below the high one.
unfoldable pub pairs : List ℕ → List ℕ
pairs (hi ∷ lo ∷ rest) = (hi * 16 + lo) ∷ pairs rest
pairs _ = []

unfoldable pub from_hex : Text → Result HexError (List ℕ)
from_hex s = do vs ← nibbles s; if length vs % 2 == 0 then ok (pairs vs) else err odd_length

-- One digit of `{:02x}`.
unfoldable pub hex_digit : ℕ → ℕ
hex_digit d = if ltb d 10 then b'0' + d else b'a' + (d - 10)

unfoldable pub to_hex : List ℕ → Text
to_hex [] = []
to_hex (b ∷ bs) = hex_digit (b / 16) ∷ hex_digit (b % 16) ∷ to_hex bs
