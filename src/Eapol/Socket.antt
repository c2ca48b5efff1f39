-- ===== src/Eapol/Socket.antt =====
-- crates/eapol-io/src/socket.rs: `EapolSocket`. A loop that waits for the socket runs on fuel, one
-- round for each time that the reactor wakes it; without a result it is still waiting.
pub mod Opening
pub mod Waiting
use usg_authenticator.Prelude.{
  ℕ, zero, suc, List, [], ◌∷◌, Text, Bool, true, false, ltb, if◌then◌else◌, Option, none, some,
  length, take, Result, ok, err, map_err,
}
use usg_authenticator.Std.Int.{ℤ, pos, negsuc, is_negative, usize_or_zero}
use usg_authenticator.Eapol.Error.{EapolError, io, frame_too_short}
use usg_authenticator.Eapol.Kernel.{htons, SockaddrLl, size_of_sockaddr_ll, SocketType, Kernel}
use usg_authenticator.Eapol.Interface.{interface_index}

abbrev pub eth_p_pae : ℕ
eth_p_pae = 0x888E

abbrev pub af_packet : ℕ
af_packet = 17

abbrev pub frame_cap : ℕ
frame_cap = 1600

abbrev pub ethernet_header_len : ℕ
ethernet_header_len = 14

abbrev pub socket_type : SocketType
socket_type = record { raw = true; cloexec = true; nonblock = true }

pub record EapolSocket : Type 0 where
  pub fd : ℕ
  pub ifindex : ℕ

module _ (K : Kernel) where
  abbrev pub Done : Type 0 → Type 0
  Done A = K.World × Result (EapolError K.Errno) A

  abbrev pub address : ℕ → SockaddrLl
  address ifindex = record {
    sll_family = af_packet;
    sll_protocol = htons K.little_endian eth_p_pae;
    sll_ifindex = ifindex;
    sll_hatype = 0;
    sll_pkttype = 0;
    sll_halen = 0;
    sll_addr = 0 ∷ 0 ∷ 0 ∷ 0 ∷ 0 ∷ 0 ∷ 0 ∷ 0 ∷ [];
  }

  abbrev or_errno : K.World × ℤ → K.World × Result K.Errno (Unit {0})
  or_errno (w, ret) = (w, if is_negative ret then err (K.last_os_error w) else ok tt)

  unfoldable pub bind_to_interface : ℕ → ℕ → K.World → Done (Unit {0})
  bind_to_interface fd ifindex w =
      let (w', r) = or_errno (K.bind fd (address ifindex) size_of_sockaddr_ll w) in
      (w', map_err io r)

  abbrev registered : ℕ → ℕ → K.World × Result K.Errno (Unit {0}) → Done EapolSocket
  registered fd ifindex (w, ok _) = (w, ok (record { fd = fd; ifindex = ifindex }))
  registered fd ifindex (w, err x) = (w, err (io x))

  -- Where the bind fails, the descriptor is dropped, which closes it.
  abbrev on_bound : ℕ → ℕ → Done (Unit {0}) → Done EapolSocket
  on_bound fd ifindex (w, ok _) = registered fd ifindex (K.register fd w)
  on_bound fd ifindex (w, err x) = (K.close fd w, err x)

  unfoldable pub on_socket : ℕ → K.World × ℤ → Done EapolSocket
  unfolding bind_to_interface
  on_socket ifindex (w, pos fd) = on_bound fd ifindex (bind_to_interface fd ifindex w)
  on_socket ifindex (w, negsuc n) = (w, err (io (K.last_os_error w)))

  abbrev on_index : Done ℕ → Done EapolSocket
  on_index (w, ok ifindex) =
      on_socket ifindex (K.socket af_packet socket_type (htons K.little_endian eth_p_pae) w)
  on_index (w, err x) = (w, err x)

  -- `EapolSocket::open`
  unfoldable pub open_on : Text → K.World → Done EapolSocket
  open_on ifname w = on_index (interface_index K ifname w)

  abbrev pub Try : Type 0 → Type 0
  Try A = K.World → K.World × Result K.Errno A

  -- The loop of `recv` and of `send`: wait until the reactor wakes it, try, and wait again where the
  -- call would block.
  unfoldable pub when_ready :
      {A : Type 0}
      → ℕ
      → Try (Unit {0})
      → Try A
      → K.World
      → K.World × Option (Result (EapolError K.Errno) A)
  when_ready zero wait call w = (w, none)
  when_ready (suc fuel) wait call w =
      let woken = wait w in
      elim woken.1 [
        | err x ↦ (woken.0, some (err (io x)))
        | ok _ ↦
            let tried = call woken.0 in
            elim tried.1 [
              | ok a ↦ (tried.0, some (ok a))
              | err x ↦ elim (K.would_block x) [
                | true ↦ when_ready fuel wait call tried.0
                | false ↦ (tried.0, some (err (io x)))
              ]
            ]
      ]

  abbrev pub recv_once : EapolSocket → Try (List ℕ)
  recv_once s w =
      let (w', (n, buf)) = K.recv s.fd frame_cap w in
      (w', if is_negative n then err (K.last_os_error w') else ok (take (usize_or_zero n) buf))

  unfoldable pub recv :
      ℕ → EapolSocket → K.World → K.World × Option (Result (EapolError K.Errno) (List ℕ))
  recv fuel s = when_ready fuel (K.readable s.fd) (recv_once s)

  abbrev pub send_once : EapolSocket → List ℕ → Try (Unit {0})
  send_once s frame w = or_errno (K.sendto s.fd frame (address s.ifindex) size_of_sockaddr_ll w)

  unfoldable pub send :
      ℕ → EapolSocket → List ℕ → K.World → K.World × Option (Result (EapolError K.Errno) (Unit {0}))
  send fuel s frame w =
      if ltb (length frame) ethernet_header_len
      then (w, some (err (frame_too_short (length frame))))
      else when_ready fuel (K.writable s.fd) (send_once s frame) w
