-- ===== src/Pacp/Ethernet/StationId.antt =====
-- crates/pacp/src/ethernet.rs: the `Calling-Station-Id` text of a MAC address.
use usg_authenticator.Prelude.{ℕ, ◌/◌, ◌%◌, ◌<◌, ◌≡◌, refl, length, arith}
use usg_authenticator.Pacp.Octets.{IsOctet}
use usg_authenticator.Pacp.Ethernet.{MacAddr, hex_digit, format_mac}

abbrev pub IsMac : MacAddr → Type 0
IsMac m = IsOctet m.m0 × IsOctet m.m1 × IsOctet m.m2 × IsOctet m.m3 × IsOctet m.m4 × IsOctet m.m5

hex_digit-injective : (a b : ℕ) → a < 16 → b < 16 → hex_digit a ≡ hex_digit b → a ≡ b
unfolding hex_digit
hex_digit-injective a b ha hb e = ground arith

hex2-injective :
    (a b : ℕ)
    → IsOctet a
    → IsOctet b
    → hex_digit (a / 16) ≡ hex_digit (b / 16)
    → hex_digit (a % 16) ≡ hex_digit (b % 16)
    → a ≡ b
hex2-injective a b ha hb hi lo = omega (
  arith,
  hex_digit-injective (a / 16) (b / 16) (omega arith) (omega arith) hi,
  hex_digit-injective (a % 16) (b % 16) (omega arith) (omega arith) lo,
)

-- Two stations of octets with the same Calling-Station-Id are one station.
pub format_mac-injective : (a b : MacAddr) → IsMac a → IsMac b → format_mac a ≡ format_mac b → a ≡ b
unfolding format_mac
format_mac-injective a b ha hb e = ground (
  arith,
  hex2-injective a.m0 b.m0,
  hex2-injective a.m1 b.m1,
  hex2-injective a.m2 b.m2,
  hex2-injective a.m3 b.m3,
  hex2-injective a.m4 b.m4,
  hex2-injective a.m5 b.m5,
)

pub length-format_mac : (a : MacAddr) → length (format_mac a) ≡ 17
unfolding format_mac
length-format_mac a = refl
