-- ===== src/Eapol/Kernel.antt =====
-- What crates/eapol-io/src/socket.rs calls: the system's packet sockets and the reactor, over a world
-- that they act on. A call that fails returns a negative number and leaves its error behind;
-- `register` (`AsyncFd::new`) takes the descriptor over, also where it fails.
use usg_authenticator.Prelude.{ℕ, ◌+◌, ◌*◌, ◌/◌, ◌%◌, List, Bool, if◌then◌else◌, Result}
use usg_authenticator.Std.Int.{ℤ}

-- `u16::to_be` on a host of either byte order.
unfoldable pub htons : Bool → ℕ → ℕ
htons little_endian value = if little_endian then value % 256 * 256 + value / 256 else value

pub record SockaddrLl : Type 0 where
  pub sll_family : ℕ
  pub sll_protocol : ℕ
  pub sll_ifindex : ℕ
  pub sll_hatype : ℕ
  pub sll_pkttype : ℕ
  pub sll_halen : ℕ
  pub sll_addr : List ℕ

-- The octets of `struct sockaddr_ll` in its C layout, which has no padding.
abbrev pub size_of_sockaddr_ll : ℕ
size_of_sockaddr_ll = 2 + 2 + 4 + 2 + 1 + 1 + 8

pub record SocketType : Type 0 where
  pub raw : Bool
  pub cloexec : Bool
  pub nonblock : Bool

pub record Kernel : Type 1 where
  pub World : Type 0
  pub Errno : Type 0
  pub little_endian : Bool
  pub if_nametoindex : List ℕ → World → World × ℕ
  pub socket : ℕ → SocketType → ℕ → World → World × ℤ
  pub bind : ℕ → SockaddrLl → ℕ → World → World × ℤ
  pub recv : ℕ → ℕ → World → World × (ℤ × List ℕ)
  pub sendto : ℕ → List ℕ → SockaddrLl → ℕ → World → World × ℤ
  pub close : ℕ → World → World
  pub last_os_error : World → Errno
  pub would_block : Errno → Bool
  pub register : ℕ → World → World × Result Errno (Unit {0})
  pub readable : ℕ → World → World × Result Errno (Unit {0})
  pub writable : ℕ → World → World × Result Errno (Unit {0})
