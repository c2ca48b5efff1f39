-- ===== src/Std/Parse.antt =====
-- `str::parse::<u16>`: decimal digits, with or without a `+` before them, and no overflow.
use usg_authenticator.Prelude.{
  ℕ, ◌+◌, ◌-◌, ◌*◌, ◌≤◌, ◌<◌, ◌≡◌, ◌≢◌, refl, [], ◌∷◌, Bool, ◌&&◌, ltb, leb, ◌==◌, if◌then◌else◌,
  Option, none, some, Text, arith,
}

abbrev pub is_digit : ℕ → Bool
is_digit c = leb b'0' c && leb c b'9'

-- The digits after an optional `+`, most significant first; an overflow is an error.
unfoldable pub parse_digits : Text → ℕ → Option ℕ
parse_digits [] acc = some acc
parse_digits (c ∷ cs) acc =
    let v = acc * 10 + (c - b'0') in
    let rest = parse_digits cs v in if is_digit c && ltb v 65536 then rest else none

abbrev pub unsigned : Text → Option ℕ
unsigned [] = none
unsigned (c ∷ cs) = parse_digits (c ∷ cs) 0

unfoldable pub parse_u16 : Text → Option ℕ
parse_u16 [] = none
parse_u16 (c ∷ cs) = if c == b'+' then unsigned cs else unsigned (c ∷ cs)

-- A text of decimal digits, and the number that it writes.
abbrev pub AllDigits : Text → Type 0
AllDigits [] = Unit
AllDigits (c ∷ cs) = (b'0' ≤ c) × (c ≤ b'9') × AllDigits cs

abbrev pub value_from : ℕ → Text → ℕ
value_from acc [] = acc
value_from acc (c ∷ cs) = value_from (acc * 10 + (c - b'0')) cs

le-value_from : (cs : Text) (acc : ℕ) → acc ≤ value_from acc cs
le-value_from [] acc = omega arith
le-value_from (c ∷ cs) acc = omega (arith, le-value_from cs (acc * 10 + (c - b'0')))

-- A decimal number that fits 16 bits is parsed to its value.
pub parse_digits-value_from :
    (cs : Text) (acc : ℕ)
    → AllDigits cs
    → value_from acc cs < 65536
    → parse_digits cs acc ≡ some (value_from acc cs)
unfolding parse_digits
parse_digits-value_from [] acc d h = refl
parse_digits-value_from (c ∷ cs) acc d h =
    let v = acc * 10 + (c - b'0') in
    ground (arith, le-value_from cs v, parse_digits-value_from cs v)

pub parse_digits-some :
    (cs : Text) (acc v : ℕ) → parse_digits cs acc ≡ some v → AllDigits cs × (v ≡ value_from acc cs)
unfolding parse_digits
parse_digits-some [] acc v h = ground arith
parse_digits-some (c ∷ cs) acc v h = ground (arith, parse_digits-some cs (acc * 10 + (c - b'0')) v)

abbrev pub without_plus : Text → Text
without_plus [] = []
without_plus (c ∷ cs) = if c == b'+' then cs else c ∷ cs

unsigned-some :
    (cs : Text) (v : ℕ) → unsigned cs ≡ some v → AllDigits cs × (v ≡ value_from 0 cs) × (cs ≢ [])
unsigned-some [] v h = cc
unsigned-some (c ∷ cs) v h = ground (arith, parse_digits-some (c ∷ cs) 0 v)

pub parse_u16-some :
    (vlan : Text) (v : ℕ)
    → parse_u16 vlan ≡ some v
    → AllDigits (without_plus vlan) × (v ≡ value_from 0 (without_plus vlan))
unfolding parse_u16
parse_u16-some [] v h = cc
parse_u16-some (c ∷ cs) v h = ground (arith, unsigned-some cs v, unsigned-some (c ∷ cs) v)
