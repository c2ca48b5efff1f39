-- ===== src/Eapol/Socket/Opening.antt =====
-- crates/eapol-io/src/socket.rs: what `EapolSocket::open` asks of the system, and that it leaves no
-- descriptor behind.
use usg_authenticator.Prelude.{
  ℕ, suc, ◌-◌, ◌^◌, ◌≤◌, ◌<◌, ◌≡◌, refl, List, [], ◌∷◌, ◌++◌, Text, false, if◌then◌else◌, length,
  Result, ok, err, arith, inl, inr, Result-cases, Bool-cases,
}
use usg_authenticator.Std.Int.{ℤ, pos, negsuc, is_negative}
use usg_authenticator.Std.Utf8.{utf8_bytes}
use usg_authenticator.Eapol.Error.{EapolError, invalid_interface_name}
use usg_authenticator.Eapol.Kernel.{Kernel, SocketType, SockaddrLl, htons, size_of_sockaddr_ll}
use usg_authenticator.Eapol.Interface.{ifname_cstring, interface_index, has_nul}
use usg_authenticator.Eapol.Socket.{
  EapolSocket, eth_p_pae, af_packet, socket_type, address, bind_to_interface, on_socket, open_on,
}

-- A name that an interface may have: 1 to 15 octets, none of which is NUL.
abbrev pub IsIfname : Text → Type 0
IsIfname t =
    (1 ≤ length (utf8_bytes t)) × (length (utf8_bytes t) ≤ 15) × (has_nul (utf8_bytes t) ≡ false)

-- Descriptors after a call that takes one over, and after one that opens a socket.
abbrev taken : {E : Type 0} → Result E (Unit {0}) → ℕ → ℕ
taken (ok _) n = n
taken (err _) n = n - 1

abbrev pub and_socket : {E : Type 0} → Result E EapolSocket → ℕ → ℕ
and_socket (ok _) n = suc n
and_socket (err _) n = n

module _ (K : Kernel) where
  ifname_cstring-ok :
      (t : Text) (c : List ℕ)
      → ifname_cstring K t ≡ ok c
      → IsIfname t × (c ≡ utf8_bytes t ++ (0 ∷ []))
  unfolding ifname_cstring
  ifname_cstring-ok t c h = ground arith

  ifname_cstring-err :
      (t : Text) (x : EapolError K.Errno)
      → ifname_cstring K t ≡ err x
      → (x ≡ invalid_interface_name t) × ¬ (IsIfname t)
  unfolding ifname_cstring
  ifname_cstring-err t x h = ground arith

  -- A name that no interface may have is refused before any call of the system.
  pub open_on-invalid :
      (t : Text) (w : K.World)
      → ¬ (IsIfname t)
      → open_on K t w ≡ (w, err (invalid_interface_name t))
  unfolding open_on interface_index ifname_cstring
  open_on-invalid t w h = ground arith

  -- The steps of an opening that succeeds: each call, the world that it leaves, and its result.
  pub record Opened (t : Text) (w v : K.World) (s : EapolSocket) : Type 0 where
    pub named : IsIfname t
    pub resolved : K.World
    pub found : K.if_nametoindex (utf8_bytes t ++ (0 ∷ [])) w ≡ (resolved, s.ifindex)
    pub is_index : (1 ≤ s.ifindex) × (s.ifindex < 2 ^ 31)
    pub made : K.World
    pub has_fd :
        K.socket af_packet socket_type (htons K.little_endian eth_p_pae) resolved ≡ (made, pos s.fd)
    pub bound : K.World
    pub code : ℕ
    pub is_bound : K.bind s.fd (address K s.ifindex) size_of_sockaddr_ll made ≡ (bound, pos code)
    pub watched : K.register s.fd bound ≡ (v, ok tt)

  interface_index-ok :
      (t : Text) (w u : K.World) (i : ℕ)
      → interface_index K t w ≡ (u, ok i)
      → IsIfname t
        × (K.if_nametoindex (utf8_bytes t ++ (0 ∷ [])) w ≡ (u, i))
        × (1 ≤ i)
        × (i < 2 ^ 31)
  unfolding interface_index
  interface_index-ok t w u i h = elim (Result-cases (ifname_cstring K t)) [
    | inl (c, e) ↦ ground (arith, ifname_cstring-ok t c e)
    | inr (x, e) ↦ ground arith
  ]

  on_socket-ok :
      (i : ℕ) (w v : K.World) (z : ℤ) (s : EapolSocket)
      → on_socket K i (w, z) ≡ (v, ok s)
      → (z ≡ pos s.fd)
        × (s.ifindex ≡ i)
        × (is_negative (K.bind s.fd (address K i) size_of_sockaddr_ll w).1 ≡ false)
        × (K.register s.fd (K.bind s.fd (address K i) size_of_sockaddr_ll w).0 ≡ (v, ok tt))
  unfolding on_socket bind_to_interface
  on_socket-ok i w v z s h = ground arith

  nonneg : (z : ℤ) → is_negative z ≡ false → (n : ℕ) × (z ≡ pos n)
  nonneg (pos n) h = (n, refl)
  nonneg (negsuc n) h = ground arith

  open_on-index :
      (t : Text) (w v : K.World) (s : EapolSocket)
      → open_on K t w ≡ (v, ok s)
      → (u : K.World) × (i : ℕ) × (interface_index K t w ≡ (u, ok i))
        × (on_socket K i (K.socket af_packet socket_type (htons K.little_endian eth_p_pae) u)
            ≡ (v, ok s))
  unfolding open_on
  open_on-index t w v s h = elim (Result-cases (interface_index K t w).1) [
    | inl (i, e) ↦ ((interface_index K t w).0, i, ground arith, ground arith)
    | inr (x, e) ↦ ground arith
  ]

  -- A socket that opens was opened by exactly these calls, in this order: the name's octets, which
  -- are a valid name, ended by NUL, give the index, which is an `i32` and not zero; a raw packet
  -- socket for EAPOL is made; that socket is bound to that index; and the reactor takes it.
  pub open_on-Opened :
      (t : Text) (w v : K.World) (s : EapolSocket) → open_on K t w ≡ (v, ok s) → Opened t w v s
  open_on-Opened t w v s h =
      let (u, i, found, made) = open_on-index t w v s h in
      let name = interface_index-ok t w u i found in
      let call = K.socket af_packet socket_type (htons K.little_endian eth_p_pae) u in
      let steps = on_socket-ok i call.0 v call.1 s made in
      let (code, good) = nonneg _ steps.2 in
      record {
        named = name.0;
        resolved = u;
        found = ground arith;
        is_index = ground arith;
        made = call.0;
        has_fd = ground arith;
        bound = (K.bind s.fd (address K s.ifindex) size_of_sockaddr_ll call.0).0;
        code = code;
        is_bound = ground arith;
        watched = ground arith;
      }

  -- The number of descriptors that are open, and what the calls do to it.
  pub record Counts : Type 0 where
    pub open_fds : K.World → ℕ
    pub naming : (c : List ℕ) (w : K.World) → open_fds (K.if_nametoindex c w).0 ≡ open_fds w
    pub making :
        (d p : ℕ) (t : SocketType) (w : K.World)
        → open_fds (K.socket d t p w).0
          ≡ (if is_negative (K.socket d t p w).1 then open_fds w else suc (open_fds w))
    pub binding :
        (fd n : ℕ) (a : SockaddrLl) (w : K.World) → open_fds (K.bind fd a n w).0 ≡ open_fds w
    pub closing : (fd : ℕ) (w : K.World) → open_fds (K.close fd w) ≡ open_fds w - 1
    pub registering :
        (fd : ℕ) (w : K.World)
        → open_fds (K.register fd w).0 ≡ taken (K.register fd w).1 (open_fds w)

  module _ (N : Counts) where
    abbrev pub open_fds : K.World → ℕ
    open_fds = N.open_fds

    bound_fds :
        (i fd : ℕ) (w v : K.World) (n : ℕ) (r : Result (EapolError K.Errno) EapolSocket)
        → open_fds w ≡ suc n
        → on_socket K i (w, pos fd) ≡ (v, r)
        → open_fds v ≡ and_socket r n
    unfolding on_socket bind_to_interface
    bound_fds i fd w v n r one h =
        let a = address K i in
        let b = (K.bind fd a size_of_sockaddr_ll w).0 in
        ground (arith, N.binding fd size_of_sockaddr_ll a w, N.closing fd b, N.registering fd b)

    made_fds :
        (i : ℕ) (u v : K.World) (n : ℕ) (r : Result (EapolError K.Errno) EapolSocket)
        → open_fds u ≡ n
        → on_socket K i (K.socket af_packet socket_type (htons K.little_endian eth_p_pae) u)
          ≡ (v, r)
        → open_fds v ≡ and_socket r n
    unfolding on_socket
    made_fds i u v n r same h =
        let p = htons K.little_endian eth_p_pae in
        let z = (K.socket af_packet socket_type p u).1 in
        let made = N.making af_packet p socket_type u in
        elim (Bool-cases (is_negative z)) [
          | inl bad ↦ ground arith
          | inr good ↦
              let (fd, is_fd) = nonneg z good in
              bound_fds i fd (K.socket af_packet socket_type p u).0 v n r (ground arith)
                (ground arith)
        ]

    interface_index-fds : (t : Text) (w : K.World) → open_fds (interface_index K t w).0 ≡ open_fds w
    unfolding interface_index
    interface_index-fds t w = elim (Result-cases (ifname_cstring K t)) [
      | inl (c, e) ↦ ground (arith, N.naming c w)
      | inr (x, e) ↦ ground arith
    ]

    -- If each call changes the number of open descriptors as documented, opening a socket that
    -- succeeds opens one descriptor, and an opening that fails, at whichever step, leaves none
    -- behind.
    pub open_on-fds :
        (t : Text) (w : K.World)
        → open_fds (open_on K t w).0 ≡ and_socket (open_on K t w).1 (open_fds w)
    unfolding open_on
    open_on-fds t w =
        let u = (interface_index K t w).0 in
        elim (Result-cases (interface_index K t w).1) [
          | inl (i, e) ↦
              let r =
                on_socket K i
                  (K.socket af_packet socket_type (htons K.little_endian eth_p_pae) u) in
              ground (arith, made_fds i u r.0 (open_fds w) r.1 (interface_index-fds t w) refl)
          | inr (x, e) ↦ ground (arith, interface_index-fds t w)
        ]
