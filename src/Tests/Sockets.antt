-- ===== src/Tests/Sockets.antt =====
-- crates/eapol-io: a system on which the bind of a socket fails.
use usg_authenticator.Prelude.{ℕ, suc, ◌-◌, ◌==◌, ◌≡◌, refl, [], codes, true, Result, ok, length}
use usg_authenticator.Std.Int.{pos, negsuc}
use usg_authenticator.Eapol.Error.{EapolError}
use usg_authenticator.Eapol.Kernel.{Kernel}
use usg_authenticator.Eapol.Socket.{EapolSocket, open_on}
use usg_authenticator.Eapol.Socket.Opening.{Counts, and_socket, open_on-fds}

-- The world counts the open descriptors.
abbrev system : Kernel
system = record {
  World = ℕ;
  Errno = ℕ;
  little_endian = true;
  if_nametoindex = λ c w. (w, 3);
  socket = λ d t p w. (suc w, pos w);
  bind = λ fd a n w. (w, negsuc 0);
  recv = λ fd n w. (suc w, (negsuc 0, []));
  sendto = λ fd frame a n w. (w, pos (length frame));
  close = λ fd w. w - 1;
  last_os_error = λ w. w;
  would_block = λ x. x == 6;
  register = λ fd w. (w, ok tt);
  readable = λ fd w. (w, ok tt);
  writable = λ fd w. (w, ok tt);
}

system-Counts : Counts system
system-Counts = record {
  open_fds = λ w. w;
  naming = λ c w. refl;
  making = λ d p t w. refl;
  binding = λ fd n a w. refl;
  closing = λ fd w. refl;
  registering = λ fd w. refl;
}

abbrev left : ℕ × Result (EapolError ℕ) EapolSocket
left = open_on system (codes "Ethernet0") 5

open_on-fds_example : system-Counts.open_fds left.0 ≡ and_socket left.1 (system-Counts.open_fds 5)
open_on-fds_example = open_on-fds system system-Counts (codes "Ethernet0") 5
