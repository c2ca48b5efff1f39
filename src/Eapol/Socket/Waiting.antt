-- ===== src/Eapol/Socket/Waiting.antt =====
-- crates/eapol-io/src/socket.rs: what the loops of `recv` and `send` return.
use usg_authenticator.Prelude.{
  ℕ, zero, suc, ◌≤◌, ◌≡◌, List, [], ◌∷◌, length, take, true, false, some, Result, ok, err,
  Result-cases, Bool-cases, inl, inr, arith,
}
use usg_authenticator.Std.Int.{usize_or_zero}
use usg_authenticator.Eapol.Error.{EapolError, io}
use usg_authenticator.Eapol.Kernel.{Kernel}
use usg_authenticator.Eapol.Socket.{EapolSocket, frame_cap, Try, when_ready, recv_once, recv}

module _ (K : Kernel) {A : Type 0} (wait : Try K (Unit {0})) (call : Try K A) where
  -- A round that ends the loop in `v` with `r`.
  pub data Ends (v : K.World) (r : Result (EapolError K.Errno) A) : K.World → Type 0 where
    not_woken : (w : K.World) (x : K.Errno) → wait w ≡ (v, err x) → r ≡ err (io x) → Ends v r w
    done :
        (w u : K.World) (a : A) → wait w ≡ (u, ok tt) → call u ≡ (v, ok a) → r ≡ ok a → Ends v r w
    failed :
        (w u : K.World) (x : K.Errno)
        → wait w ≡ (u, ok tt)
        → call u ≡ (v, err x)
        → K.would_block x ≡ false
        → r ≡ err (io x)
        → Ends v r w

  -- Rounds in which the call would block, and then one that ends the loop.
  pub data Rounds (v : K.World) (r : Result (EapolError K.Errno) A) : ℕ → K.World → Type 0 where
    last : (w : K.World) → Ends v r w → Rounds v r 1 w
    blocked :
        (n : ℕ) (w u t : K.World) (x : K.Errno)
        → wait w ≡ (u, ok tt)
        → call u ≡ (t, err x)
        → K.would_block x ≡ true
        → Rounds v r n t
        → Rounds v r (suc n) w

  when_ready-Ends :
      (v : K.World) (r : Result (EapolError K.Errno) A) (w : K.World) (k : ℕ)
      → Ends v r w
      → when_ready K (suc k) wait call w ≡ (v, some r)
  unfolding when_ready
  when_ready-Ends v r w k (not_woken _ x a e) = ground arith
  when_ready-Ends v r w k (done _ u a b c e) = ground arith
  when_ready-Ends v r w k (failed _ u x b c d e) = ground arith

  when_ready-blocked :
      (k : ℕ) (w u t : K.World) (x : K.Errno)
      → wait w ≡ (u, ok tt)
      → call u ≡ (t, err x)
      → K.would_block x ≡ true
      → when_ready K (suc k) wait call w ≡ when_ready K k wait call t
  unfolding when_ready
  when_ready-blocked k w u t x a b c = ground arith

  -- However often the call would block first: with as much fuel as there are rounds, the loop ends
  -- where the last round ends it, with its result.
  pub when_ready-Rounds :
      (v : K.World) (r : Result (EapolError K.Errno) A) (n fuel : ℕ) (w : K.World)
      → Rounds v r n w
      → n ≤ fuel
      → when_ready K fuel wait call w ≡ (v, some r)
  when_ready-Rounds v r _ zero w (last _ e) h = absurd (omega arith)
  when_ready-Rounds v r _ (suc fuel) w (last _ e) h = when_ready-Ends v r w fuel e
  when_ready-Rounds v r _ zero w (blocked n _ u t x a b c more) h = absurd (omega arith)
  when_ready-Rounds v r _ (suc fuel) w (blocked n _ u t x a b c more) h =
      rw (when_ready-blocked fuel w u t x a b c) (when_ready-Rounds v r n fuel t more (omega arith))

  round_failed :
      (k : ℕ) (w u t : K.World) (x : K.Errno)
      → wait w ≡ (u, ok tt)
      → call u ≡ (t, err x)
      → K.would_block x ≡ false
      → when_ready K (suc k) wait call w ≡ (t, some (err (io x)))
  unfolding when_ready
  round_failed k w u t x a b c = ground arith

  -- And a result of the loop is always the result of such a run, of at most as many rounds as fuel.
  pub Rounds-when_ready :
      (v : K.World) (r : Result (EapolError K.Errno) A) (fuel : ℕ) (w : K.World)
      → when_ready K fuel wait call w ≡ (v, some r)
      → (n : ℕ) × (n ≤ fuel) × Rounds v r n w
  unfolding when_ready
  Rounds-when_ready v r zero w h = ground arith
  Rounds-when_ready v r (suc fuel) w h = elim (Result-cases (wait w).1) [
    | inr (x, asleep) ↦ (1, omega arith, last w (not_woken w x (ground arith) (ground arith)))
    | inl (_, awake) ↦
        let u = (wait w).0 in
        elim (Result-cases (call u).1) [
          | inl (a, went) ↦
              (1, omega arith, last w (done w u a (ground arith) (ground arith) (ground arith)))
          | inr (x, not_yet) ↦ elim (Bool-cases (K.would_block x)) [
            | inl again ↦
                let t = (call u).0 in
                let (n, le, more) = Rounds-when_ready v r fuel t (ground arith) in
                (suc n, omega arith, blocked n w u t x (ground arith) (ground arith) again more)
            | inr final ↦ (
              1,
              omega arith,
              last w (failed w u x (ground arith) (ground arith) final (ground arith)),
            )
          ]
        ]
  ]

length-take_le : {A : Type 0} (n : ℕ) (xs : List A) → length (take n xs) ≤ length xs
length-take_le zero xs = omega arith
length-take_le (suc n) [] = omega arith
length-take_le (suc n) (x ∷ xs) = omega (arith, length-take_le n xs)

-- `recv` fills the buffer that it is given, which keeps its length.
abbrev pub KeepsBuffer : Kernel → Type 0
KeepsBuffer K = (fd cap : ℕ) (w : K.World) → length (K.recv fd cap w).1.1 ≡ cap

module _ (K : Kernel) (law : KeepsBuffer K) (s : EapolSocket) where
  once-le :
      (w v : K.World) (frame : List ℕ) → recv_once K s w ≡ (v, ok frame) → length frame ≤ frame_cap
  once-le w v frame e = ground (
    arith,
    law s.fd frame_cap w,
    length-take_le (usize_or_zero (K.recv s.fd frame_cap w).1.0) (K.recv s.fd frame_cap w).1.1,
  )

  round-le :
      (v : K.World) (frame : List ℕ) (n : ℕ) (w : K.World)
      → Rounds K (K.readable s.fd) (recv_once K s) v (ok frame) n w
      → length frame ≤ frame_cap
  round-le v frame _ w (last _ (not_woken _ x a e)) = absurd (ground arith)
  round-le v frame _ w (last _ (done _ u a b c e)) = once-le u v frame (ground arith)
  round-le v frame _ w (last _ (failed _ u x b c d e)) = absurd (ground arith)
  round-le v frame _ w (blocked n _ u t x a b c more) = round-le v frame n t more

  -- A frame that is received fits the buffer: it has 1600 octets at most.
  pub recv-le :
      (fuel : ℕ) (w v : K.World) (frame : List ℕ)
      → recv K fuel s w ≡ (v, some (ok frame))
      → length frame ≤ frame_cap
  unfolding recv
  recv-le fuel w v frame h =
      let (n, le, rounds) =
        Rounds-when_ready K (K.readable s.fd) (recv_once K s) v (ok frame) fuel w h in
      round-le v frame n w rounds
