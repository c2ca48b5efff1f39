-- ===== src/Radsec/Client/Connect.antt =====
-- crates/radsec/src/client.rs: opening a connection. The network and the TLS handshake are a
-- parameter; `expires` says whether the deadline passes before the handshake is done, and
-- `cancelled` what an attempt that is given up leaves.
use usg_authenticator.Prelude.{
  ℕ, ◌≡◌, Text, Bool, false, if◌then◌else◌, Option, none, some, Result, ok, err, map_err, arith,
  Option-cases, inl, inr,
}
use usg_authenticator.Radsec.Framing.{RadSecError, io, bad_server_name, timeout}

pub record Network : Type 1 where
  pub World : Type 0
  pub Addr : Type 0
  pub ServerName : Type 0
  pub ClientConfig : Type 0
  pub Tcp : Type 0
  pub Stream : Type 0
  pub IoError : Type 0
  pub server_name : Text → Option ServerName
  pub tcp_connect : Addr → World → World × Result IoError Tcp
  pub tls_connect : ClientConfig → ServerName → Tcp → World → World × Result IoError Stream
  pub expires : ℕ → World → Bool
  pub cancelled : World → World

module _ (N : Network) (P T : Type 0) where
  pub record RadSecConnection : Type 0 where
    pub stream : N.Stream
    pub io_timeout : ℕ

  abbrev pub Attempt : Type 0 → Type 0
  Attempt A = N.World × Result (RadSecError P N.IoError T) A

  abbrev shaken : N.World × Result N.IoError N.Stream → Attempt N.Stream
  shaken (w, r) = (w, map_err io r)

  abbrev over_tcp :
      N.ClientConfig → N.ServerName → N.World × Result N.IoError N.Tcp → Attempt N.Stream
  over_tcp config name (w, ok tcp) = shaken (N.tls_connect config name tcp w)
  over_tcp config name (w, err e) = (w, err (io e))

  abbrev pub handshake : N.Addr → N.ServerName → N.ClientConfig → N.World → Attempt N.Stream
  handshake addr name config w = over_tcp config name (N.tcp_connect addr w)

  abbrev with_timeout : ℕ → Attempt N.Stream → Attempt RadSecConnection
  with_timeout io_timeout (w, ok s) = (w, ok (record { stream = s; io_timeout = io_timeout }))
  with_timeout io_timeout (w, err e) = (w, err e)

  abbrev to_name :
      N.Addr → Option N.ServerName → N.ClientConfig → ℕ → N.World → Attempt RadSecConnection
  to_name addr none config io_timeout w = (w, err bad_server_name)
  to_name addr (some name) config io_timeout w =
      if N.expires io_timeout w
      then (N.cancelled w, err timeout)
      else with_timeout io_timeout (handshake addr name config w)

  unfoldable pub connect : N.Addr → Text → N.ClientConfig → ℕ → N.World → Attempt RadSecConnection
  connect addr server_name config io_timeout w =
      to_name addr (N.server_name server_name) config io_timeout w

  -- A connection is given out only for a name that is valid, by a handshake for that name under the
  -- given configuration that succeeds before the deadline, which it then keeps for its reads.
  pub connect-ok :
      (addr : N.Addr) (server_name : Text) (config : N.ClientConfig) (io_timeout : ℕ)
      (w v : N.World) (c : RadSecConnection)
      → connect addr server_name config io_timeout w ≡ (v, ok c)
      → ((name : N.ServerName) × (N.server_name server_name ≡ some name)
          × (handshake addr name config w ≡ (v, ok c.stream)))
        × (N.expires io_timeout w ≡ false)
        × (c.io_timeout ≡ io_timeout)
  unfolding connect
  connect-ok addr server_name config io_timeout w v c h =
      elim (Option-cases (N.server_name server_name)) [
        | inl unnamed ↦ absurd (ground arith)
        | inr (name, named) ↦ ((name, named, ground arith), ground arith, ground arith)
      ]
