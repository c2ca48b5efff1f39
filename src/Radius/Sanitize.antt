-- ===== src/Radius/Sanitize.antt =====
-- crates/radius-client/src/sanitize.rs: an EAP identity is checked before it becomes `User-Name`.
use usg_authenticator.Prelude.{
  ℕ, ◌≤◌, ◌<◌, ◌≡◌, refl, List, [], ◌∷◌, Bool, true, false, ◌||◌, ◌&&◌, ltb, leb, ◌==◌,
  if◌then◌else◌, length, All, Option, none, some, Text, Result, ok, err, arith,
}
use usg_authenticator.Std.Utf8.{from_utf8, utf8_from, read_char}
use usg_authenticator.Radius.Consts.{max_attr_value}
use usg_authenticator.Radius.Error.{RadiusClientError, invalid_user_name}

-- `char::is_control` (the two control ranges and DEL), and the two separators.
abbrev pub is_refused : ℕ → Bool
is_refused c = ltb c 0x20 || ((leb 0x7F c && leb c 0x9F) || (c == 0x2028 || c == 0x2029))

unfoldable pub any_refused : Text → Bool
any_refused [] = false
any_refused (c ∷ cs) = let rest = any_refused cs in if is_refused c then true else rest

module _ {ℓ} {E : Type ℓ} where
  abbrev checked : Option Text → Result (RadiusClientError E) Text
  checked none = err invalid_user_name
  checked (some s) = if any_refused s then err invalid_user_name else ok s

  unfoldable pub user_name : List ℕ → Result (RadiusClientError E) Text
  user_name identity =
      if length identity == 0 || ltb max_attr_value (length identity)
      then err invalid_user_name
      else checked (from_utf8 identity)

abbrev pub IsPrintable : ℕ → Type 0
IsPrintable c = (0x20 ≤ c) × (c < 0x7F)

any_refused-All : (s : Text) → any_refused s ≡ false → All (λ c. is_refused c ≡ false) s
unfolding any_refused
any_refused-All [] h = tt
any_refused-All (c ∷ cs) h = ground (arith, any_refused-All cs)

-- A User-Name that is sent on comes from 1 to 253 octets, is their UTF-8 reading, and holds no
-- control character and no line or paragraph separator.
pub user_name-ok :
    (E : Type 0) (identity : List ℕ) (s : Text)
    → user_name {E = E} identity ≡ ok s
    → (1 ≤ length identity)
      × (length identity ≤ 253)
      × (from_utf8 identity ≡ some s)
      × All (λ c. is_refused c ≡ false) s
unfolding user_name
user_name-ok E identity s h = ground (arith, any_refused-All s)

utf8_from-printable : (s : Text) → All IsPrintable s → utf8_from 0 s ≡ some s
unfolding utf8_from read_char
utf8_from-printable [] h = refl
utf8_from-printable (c ∷ cs) h = ground (arith, utf8_from-printable cs)

any_refused-printable : (s : Text) → All IsPrintable s → any_refused s ≡ false
unfolding any_refused
any_refused-printable [] h = refl
any_refused-printable (c ∷ cs) h = ground (arith, any_refused-printable cs)

-- Every printable ASCII identity of 1 to 253 octets is accepted, and is sent on unchanged.
pub user_name-printable :
    (E : Type 0) (identity : List ℕ)
    → All IsPrintable identity
    → 1 ≤ length identity
    → length identity ≤ 253
    → user_name {E = E} identity ≡ ok identity
unfolding user_name from_utf8
user_name-printable E identity h lo hi =
    ground (arith, utf8_from-printable identity, any_refused-printable identity)
