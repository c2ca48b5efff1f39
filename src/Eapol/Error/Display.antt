-- ===== src/Eapol/Error/Display.antt =====
-- crates/eapol-io/src/error.rs: the text of an error. `quoted` is `{:?}` of a text and `shown` the text
-- of an error of the system.
use usg_authenticator.Prelude.{◌++◌, Text, codes}
use usg_authenticator.Std.Decimal.{decimal}
use usg_authenticator.Eapol.Error.{
  EapolError, invalid_interface_name, interface_not_found, io, frame_too_short,
}

abbrev pub display : {E : Type 0} → (Text → Text) → (E → Text) → EapolError E → Text
display quoted shown (invalid_interface_name n) = codes "invalid interface name " ++ quoted n
display quoted shown (interface_not_found n) =
    codes "interface " ++ (quoted n ++ codes " not found")
display quoted shown (io e) = codes "socket I/O error: " ++ shown e
display quoted shown (frame_too_short n) =
    codes "frame too short to send: " ++ (decimal n ++ codes " octets")
