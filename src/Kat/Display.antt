-- ===== src/Kat/Display.antt =====
-- crates/kat/src/lib.rs: the text of an error. `quoted` is `{:?}` of a character.
use usg_authenticator.Prelude.{ℕ, ◌++◌, Text, codes}
use usg_authenticator.Kat.{HexError, odd_length, bad_digit}

abbrev pub display : (ℕ → Text) → HexError → Text
display quoted odd_length = codes "hex string has an odd number of digits"
display quoted (bad_digit c) = codes "invalid hex digit " ++ quoted c
