-- ===== src/Std/Utf8.antt =====
-- `str::from_utf8` and `String::from_utf8_lossy`: one character is read at a time, and an invalid
-- sequence is cut where the standard library cuts it, after its longest valid prefix.
use usg_authenticator.Prelude.{
  ℕ, zero, suc, ◌+◌, ◌-◌, ◌*◌, ◌/◌, ◌%◌, ◌++◌, List, [], ◌∷◌, Bool, ◌&&◌, ltb, leb, if◌then◌else◌,
  Option, none, some, Text,
}

-- The character, if the sequence is valid, and the number of continuation octets that it takes.
abbrev pub Read : Type 0
Read = Option ℕ × ℕ

abbrev between : ℕ → ℕ → ℕ → Bool
between lo hi b = leb lo b && leb b hi

abbrev is_continuation : ℕ → Bool
is_continuation = between 0x80 0xBF

-- The last octet, after `n` continuation octets of which the value so far is `v`.
abbrev read_last : ℕ → ℕ → List ℕ → Read
read_last n v [] = (none, n)
read_last n v (b ∷ _) = if is_continuation b then (some (v * 64 + (b - 0x80)), suc n) else (none, n)

abbrev read_third : ℕ → List ℕ → Read
read_third v [] = (none, 1)
read_third v (b ∷ r) = if is_continuation b then read_last 2 (v * 64 + (b - 0x80)) r else (none, 1)

-- The second octets that may follow a first octet of three or of four.
abbrev second_of_three : ℕ → ℕ → Bool
second_of_three a b =
    if leb a 0xE0
    then between 0xA0 0xBF b
    else if between 0xED 0xED a
    then between 0x80 0x9F b
    else is_continuation b

abbrev second_of_four : ℕ → ℕ → Bool
second_of_four a b =
    if leb a 0xF0
    then between 0x90 0xBF b
    else if leb 0xF4 a
    then between 0x80 0x8F b
    else is_continuation b

abbrev read_three : ℕ → List ℕ → Read
read_three a [] = (none, 0)
read_three a (b ∷ r) =
    if second_of_three a b then read_last 1 ((a - 0xE0) * 64 + (b - 0x80)) r else (none, 0)

abbrev read_four : ℕ → List ℕ → Read
read_four a [] = (none, 0)
read_four a (b ∷ r) =
    if second_of_four a b then read_third ((a - 0xF0) * 64 + (b - 0x80)) r else (none, 0)

unfoldable pub read_char : ℕ → List ℕ → Read
read_char a r =
    if ltb a 0x80
    then (some a, 0)
    else if between 0xC2 0xDF a
    then read_last 0 (a - 0xC0) r
    else if between 0xE0 0xEF a
    then read_three a r
    else if between 0xF0 0xF4 a
    then read_four a r
    else (none, 0)

abbrev replacement : Option ℕ → ℕ
replacement (some c) = c
replacement none = 0xFFFD

-- The first argument counts the octets that the last character has taken already.
unfoldable pub lossy_from : ℕ → List ℕ → Text
lossy_from n [] = []
lossy_from zero (a ∷ r) = replacement (read_char a r).0 ∷ lossy_from (read_char a r).1 r
lossy_from (suc n) (a ∷ r) = lossy_from n r

unfoldable pub from_utf8_lossy : List ℕ → Text
unfolding lossy_from read_char
from_utf8_lossy bytes = lossy_from 0 bytes

abbrev cons_read : Option ℕ → Option Text → Option Text
cons_read (some c) (some t) = some (c ∷ t)
cons_read _ _ = none

unfoldable pub utf8_from : ℕ → List ℕ → Option Text
utf8_from n [] = some []
utf8_from zero (a ∷ r) = cons_read (read_char a r).0 (utf8_from (read_char a r).1 r)
utf8_from (suc n) (a ∷ r) = utf8_from n r

unfoldable pub from_utf8 : List ℕ → Option Text
unfolding utf8_from read_char
from_utf8 bytes = utf8_from 0 bytes

abbrev encode_char : ℕ → List ℕ
encode_char c =
    if ltb c 0x80
    then c ∷ []
    else if ltb c 0x800
    then (0xC0 + c / 64) ∷ (0x80 + c % 64) ∷ []
    else if ltb c 0x10000
    then (0xE0 + c / 4096) ∷ (0x80 + c / 64 % 64) ∷ (0x80 + c % 64) ∷ []
    else (0xF0 + c / 262144) ∷ (0x80 + c / 4096 % 64) ∷ (0x80 + c / 64 % 64) ∷ (0x80 + c % 64) ∷ []

-- The octets of a string, `str::as_bytes`.
unfoldable pub utf8_bytes : Text → List ℕ
utf8_bytes [] = []
utf8_bytes (c ∷ t) = encode_char c ++ utf8_bytes t
