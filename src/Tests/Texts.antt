-- ===== src/Tests/Texts.antt =====
-- The texts of errors, and the lines that the entry point of the daemon prints.
use usg_authenticator.Prelude.{◌≡◌, refl, [], ◌∷◌, Text, codes, false}
use usg_authenticator.Std.Decimal.{decimal}
use usg_authenticator.Pacp.Error.{not_eapol, eap_too_short}
use usg_authenticator.Pacp.Error.Display as CodecError
use usg_authenticator.Radius.Error.{unexpected_reply_code}
use usg_authenticator.Radius.Error.Display as RadiusError
use usg_authenticator.Eapol.Error.{frame_too_short}
use usg_authenticator.Eapol.Error.Display as SocketError
use usg_authenticator.Radsec.Framing.{unexpected_reply}
use usg_authenticator.Radsec.Display as TransportError
use usg_authenticator.Radsec.Tls.{Rustls}
use usg_authenticator.Sonic.Db.{asic}
use usg_authenticator.Sonic.Enforcer.{unconfirmed}
use usg_authenticator.Sonic.Enforcer.Display as SonicText
use usg_authenticator.Authd.Error.{config, bad_timeout}
use usg_authenticator.Authd.Error.Display as DaemonError
use usg_authenticator.Authd.Main.{success, main}
use usg_authenticator.Kat.{bad_digit}
use usg_authenticator.Kat.Display as HexText
use usg_authenticator.Tests.Policy.{library}

abbrev nothing : {E : Type 0} → E → Text
nothing e = []

no_eapol : CodecError.display (not_eapol 2048) ≡ codes "EtherType 0x0800 is not EAPOL"
no_eapol = refl

too_short :
    CodecError.display (eap_too_short 2 4) ≡ codes "EAP packet (code 2) length 4 is below minimum"
unfolding decimal
too_short = refl

odd_code :
    RadiusError.display (nothing {E = Unit}) (unexpected_reply_code 5)
    ≡ codes "unexpected RADIUS reply code 5"
unfolding decimal
odd_code = refl

short_frame :
    SocketError.display nothing (nothing {E = Unit}) (frame_too_short 9)
    ≡ codes "frame too short to send: 9 octets"
unfolding decimal
short_frame = refl

other_reply :
    TransportError.display
      (nothing {E = Unit})
      (nothing {E = Unit})
      (nothing {E = Unit})
      (unexpected_reply 7 10)
    ≡ codes "reply identifier 10 does not match request 7"
unfolding decimal
other_reply = refl

not_programmed :
    SonicText.display nothing (nothing {E = Unit}) (unconfirmed asic (codes "k"))
    ≡ codes "dataplane change not confirmed in Asic: k"
not_programmed = refl

timeout_range :
    DaemonError.display nothing (nothing {E = Unit}) (nothing {E = Unit}) (config bad_timeout)
    ≡ codes "config error: io_timeout_secs must be in 1..=120"
unfolding decimal
timeout_range = refl

no_digit : HexText.display (λ c. c ∷ []) (bad_digit b'x') ≡ codes "invalid hex digit x"
no_digit = refl

abbrev unvalidated : Rustls
unvalidated = record library { fips = λ gs ss m. false }

-- The preflight of a module that is not validated fails, and the daemon ends with success.
unvalidated_succeeds : (main unvalidated {P = Unit} nothing nothing nothing).1 ≡ success
unfolding main
unvalidated_succeeds = refl
