-- ===== src/Eapol/Interface.antt =====
-- crates/eapol-io/src/socket.rs: the name of an interface and its index.
use usg_authenticator.Prelude.{
  ℕ, ◌^◌, List, [], ◌∷◌, ◌++◌, Text, Bool, false, ◌||◌, ◌==◌, ltb, leb, length, if◌then◌else◌,
  Result, ok, err,
}
use usg_authenticator.Std.Utf8.{utf8_bytes}
use usg_authenticator.Eapol.Error.{EapolError, invalid_interface_name, interface_not_found}
use usg_authenticator.Eapol.Kernel.{Kernel}

abbrev pub ifnamsiz : ℕ
ifnamsiz = 16

abbrev pub has_nul : List ℕ → Bool
has_nul [] = false
has_nul (b ∷ bs) = b == 0 || has_nul bs

module _ (K : Kernel) where
  -- `CString::new` ends the name with a NUL, and refuses one inside.
  unfoldable pub ifname_cstring : Text → Result (EapolError K.Errno) (List ℕ)
  ifname_cstring ifname =
      let bytes = utf8_bytes ifname in
      if length bytes == 0 || leb ifnamsiz (length bytes)
      then err (invalid_interface_name ifname)
      else if has_nul bytes
      then err (invalid_interface_name ifname)
      else ok (bytes ++ (0 ∷ []))

  -- Zero stands for no such interface; an index that is no `i32` is refused.
  abbrev index_of : Text → ℕ → Result (EapolError K.Errno) ℕ
  index_of ifname index =
      if index == 0
      then err (interface_not_found ifname)
      else if ltb index (2 ^ 31)
      then ok index
      else err (interface_not_found ifname)

  unfoldable pub interface_index : Text → K.World → K.World × Result (EapolError K.Errno) ℕ
  interface_index ifname w = elim (ifname_cstring ifname) [
    | ok cstr ↦ let (w', index) = K.if_nametoindex cstr w in (w', index_of ifname index)
    | err e ↦ (w, err e)
  ]
