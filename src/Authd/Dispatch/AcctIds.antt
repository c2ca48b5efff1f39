-- ===== src/Authd/Dispatch/AcctIds.antt =====
-- crates/authd/src/dispatch.rs: the Acct-Session-Id of a session.
use usg_authenticator.Prelude.{
  ℕ, ◌+◌, ◌%◌, ◌^◌, ◌≤◌, ◌<◌, ◌≡◌, ◌≢◌, refl, sym, ap, ◌∙◌, [], ◌∷◌, ◌++◌, if◌then◌else◌, none,
  some, Text, length, append_cancel_left, arith, Option-cases, Bool-cases, ◌⊎◌, inl, inr,
}
use usg_authenticator.Std.Decimal.{decimal}
use usg_authenticator.Std.Decimal.Injective.{decimal-injective}
use usg_authenticator.Pacp.Ethernet.{MacAddr, mac_eq, mac_eq_iff, format_mac}
use usg_authenticator.Pacp.Ethernet.StationId.{length-format_mac}
use usg_authenticator.Authd.Dispatch.{
  SessionState, Sessions, Orchestrator, get, put, session_of, acct_id_for,
}

-- The id that the n-th session of a port gets.
abbrev numbered : Text → MacAddr → ℕ → Text
numbered port mac n = port ++ (b'-' ∷ (format_mac mac ++ (b'-' ∷ decimal n)))

cancel_equal : (a b c d : Text) → length a ≡ length b → a ++ c ≡ b ++ d → c ≡ d
cancel_equal [] [] c d h e = e
cancel_equal [] (y ∷ b) c d h e = absurd (omega arith)
cancel_equal (x ∷ a) [] c d h e = absurd (omega arith)
cancel_equal (x ∷ a) (y ∷ b) c d h e = cancel_equal a b c d (omega arith) (cc)

numbered-injective :
    (port : Text) (a b : MacAddr) (m n : ℕ)
    → m < 2 ^ 64
    → n < 2 ^ 64
    → numbered port a m ≡ numbered port b n
    → m ≡ n
numbered-injective port a b m n hm hn e =
    let same : decimal m ≡ decimal n = ground (
      arith,
      cancel_equal (format_mac a) (format_mac b) (b'-' ∷ decimal m) (b'-' ∷ decimal n)
          (length-format_mac a ∙ sym (length-format_mac b)),
      append_cancel_left port (b'-' ∷ (format_mac a ++ (b'-' ∷ decimal m)))
          (b'-' ∷ (format_mac b ++ (b'-' ∷ decimal n))) e,
    ) in
    decimal-injective m n (omega arith) (omega arith) same

pub get-put_other :
    (m mac : MacAddr) (t : SessionState) (ss : Sessions)
    → get m (put mac t ss) ≡ (if mac_eq mac m then some t else get m ss)
unfolding get put
get-put_other m mac t [] = refl
get-put_other m mac t ((j, s) ∷ rest) =
    ground (arith, mac_eq_iff j mac, mac_eq_iff j m, mac_eq_iff mac m, get-put_other m mac t rest)

-- Every id that a session has was given by the counter, and no two stations have the same.
pub record Given (o : Orchestrator) : Type 0 where
  pub from_counter :
      (mac : MacAddr) (id : Text)
      → (session_of o mac).acct_id ≡ some id
      → (n : ℕ) × (n ≤ o.acct_counter) × (id ≡ numbered o.port mac n)
  pub unique :
      (a b : MacAddr) (id : Text)
      → (session_of o a).acct_id ≡ some id
      → (session_of o b).acct_id ≡ some id
      → a ≡ b

pub acct_id_for_known :
    (o : Orchestrator) (mac : MacAddr) (id : Text)
    → (session_of o mac).acct_id ≡ some id
    → acct_id_for o mac ≡ (o, id)
unfolding acct_id_for
acct_id_for_known o mac id h = ground arith

module _ (o : Orchestrator) (mac : MacAddr) (nothing : (session_of o mac).acct_id ≡ none)
    (room : o.acct_counter + 1 < 2 ^ 64) where
  abbrev next : Text
  next = numbered o.port mac (o.acct_counter + 1)

  acct_id_for_new :
      (acct_id_for o mac).1 ≡ next
      × ((acct_id_for o mac).0.acct_counter ≡ o.acct_counter + 1)
      × ((acct_id_for o mac).0.port ≡ o.port)
      × ((acct_id_for o mac).0.sessions
          ≡ put mac (record (session_of o mac) { acct_id = some next }) o.sessions)
  unfolding acct_id_for
  acct_id_for_new =
      let no_wrap : (o.acct_counter + 1) % 2 ^ 64 ≡ o.acct_counter + 1 = omega arith in
      ground (arith, no_wrap)

  abbrev o' : Orchestrator
  o' = (acct_id_for o mac).0

  acct_id_after :
      (m : MacAddr)
      → (session_of o' m).acct_id ≡ (if mac_eq mac m then some next else (session_of o m).acct_id)
  acct_id_after m = ground (
    arith,
    acct_id_for_new,
    get-put_other m mac (record (session_of o mac) { acct_id = some next }) o.sessions,
  )

  old_or_new :
      (m : MacAddr) (id : Text)
      → (session_of o' m).acct_id ≡ some id
      → ((mac ≡ m) × (id ≡ next)) ⊎ ((session_of o m).acct_id ≡ some id)
  old_or_new m id h = elim (Bool-cases (mac_eq mac m)) [
    | inl mine ↦ inl (ground (arith, acct_id_after m, mac_eq_iff mac m))
    | inr other ↦ inr (ground (arith, acct_id_after m))
  ]

  module _ (g : Given o) where
    next_unused : (m : MacAddr) → (session_of o m).acct_id ≢ some next
    next_unused m h =
        let (n, le, named) = g.from_counter m next h in
        let same =
          numbered-injective o.port mac m (o.acct_counter + 1) n room (omega arith) named in
        omega arith

    fresh-Given : Given o'
    fresh-Given = record {
      from_counter = λ m id h. elim (old_or_new m id h) [
        | inl (same, is_next) ↦
            let w = acct_id_for_new in
            (o.acct_counter + 1, omega (arith, w.1), from_next m same id is_next)
        | inr had ↦
            let (n, le, named) = g.from_counter m id had in
            let w = acct_id_for_new in (n, omega (arith, w.1), rw (w.2) named)
      ];
      unique = λ a b id ha hb. elim (old_or_new a id ha) [
        | inl (is_a, ea) ↦ elim (old_or_new b id hb) [
          | inl (is_b, eb) ↦ cc
          | inr had ↦ absurd (next_unused b (had ∙ ap some ea))
        ]
        | inr had_a ↦ elim (old_or_new b id hb) [
          | inl (is_b, eb) ↦ absurd (next_unused a (had_a ∙ ap some eb))
          | inr had_b ↦ g.unique a b id had_a had_b
        ]
      ];
    }
      where
        from_next :
            (m : MacAddr)
            → mac ≡ m
            → (id : Text) → id ≡ next
            → id ≡ numbered o'.port m (o.acct_counter + 1)
        from_next m same id e = ground (arith, acct_id_for_new)

-- While the counter has room: asking for the Acct-Session-Id of a station gives the one that its
-- session then has, and if every id that a session had was given by the counter, and no two
-- stations had the same, that is so afterwards.
pub acct_id_for-Given :
    (o : Orchestrator) (mac : MacAddr)
    → o.acct_counter + 1 < 2 ^ 64
    → Given o
    → Given (acct_id_for o mac).0
      × ((session_of (acct_id_for o mac).0 mac).acct_id ≡ some (acct_id_for o mac).1)
acct_id_for-Given o mac room g = elim (Option-cases (session_of o mac).acct_id) [
  | inr (id, has) ↦ rw (acct_id_for_known o mac id has) (g, has)
  | inl nothing ↦ (
    fresh-Given o mac nothing room g,
    ground (
      arith,
      acct_id_after o mac nothing room mac,
      acct_id_for_new o mac nothing room,
      mac_eq_iff mac mac,
    ),
  )
]
