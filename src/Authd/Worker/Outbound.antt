-- ===== src/Authd/Worker/Outbound.antt =====
-- crates/authd/src/worker.rs and crates/eapol-io/src/socket.rs: a frame that carries an EAP packet to a
-- station, on the socket.
use usg_authenticator.Prelude.{ℕ, ◌+◌, ◌≤◌, ◌≡◌, ◌≢◌, List, length, some, ok, err, arith}
use usg_authenticator.Pacp.Ethernet.{MacAddr}
use usg_authenticator.Pacp.Ethernet
use usg_authenticator.Pacp.Pdu.{PacketType, EapolPdu}
use usg_authenticator.Pacp.Pdu
use usg_authenticator.Eapol.Error.{frame_too_short}
use usg_authenticator.Eapol.Kernel.{Kernel}
use usg_authenticator.Eapol.Socket.Waiting.{
  Rounds, last, blocked, not_woken, done, failed, Rounds-when_ready,
}
use usg_authenticator.Eapol.Socket.{EapolSocket, ethernet_header_len, when_ready, send_once, send}
use usg_authenticator.Authd.Worker.{supplicant_frame}

length-supplicant_frame :
    (src mac : MacAddr) (eap bytes : List ℕ)
    → supplicant_frame src mac eap ≡ ok bytes
    → length bytes ≡ 18 + length eap
unfolding supplicant_frame Pdu.encode_frame Pdu.new Pdu.encode_into Ethernet.encode_into
length-supplicant_frame src mac eap bytes h = ground arith

module _ (K : Kernel) (s : EapolSocket) (frame : List ℕ) where
  long-Rounds :
      (v : K.World) (k n : ℕ) (w : K.World)
      → ¬ (Rounds K (K.writable s.fd) (send_once K s frame) v (err (frame_too_short k)) n w)
  long-Rounds v k _ w (last _ (not_woken _ x a e)) = ground arith
  long-Rounds v k _ w (last _ (done _ u a b c e)) = ground arith
  long-Rounds v k _ w (last _ (failed _ u x b c d e)) = ground arith
  long-Rounds v k _ w (blocked n _ u t x a b c more) = long-Rounds v k n t more

  send_ready :
      (fuel : ℕ) (w : K.World)
      → ethernet_header_len ≤ length frame
      → send K fuel s frame w ≡ when_ready K fuel (K.writable s.fd) (send_once K s frame) w
  unfolding send
  send_ready fuel w h = ground arith

-- A frame that carries an EAP packet to a station is 18 octets longer than the packet, and the
-- socket never refuses it as too short: it is handed to the system as it is, when the socket is
-- ready.
pub send-supplicant_frame :
    (K : Kernel) (s : EapolSocket) (src mac : MacAddr) (eap bytes : List ℕ) (fuel k : ℕ)
    (w : K.World)
    → supplicant_frame src mac eap ≡ ok bytes
    → (length bytes ≡ 18 + length eap)
      × (send K fuel s bytes w ≡ when_ready K fuel (K.writable s.fd) (send_once K s bytes) w)
      × ((send K fuel s bytes w).1 ≢ some (err (frame_too_short k)))
send-supplicant_frame K s src mac eap bytes fuel k w h =
    let long = length-supplicant_frame src mac eap bytes h in
    let same = send_ready K s bytes fuel w (omega arith) in
    (
      long,
      same,
      λ short.
          let v = (send K fuel s bytes w).0 in
          let (n, le, rounds) =
            Rounds-when_ready K (K.writable s.fd) (send_once K s bytes) v (err (frame_too_short k))
              fuel w (ground arith) in
          long-Rounds K s bytes v k n w rounds,
    )
