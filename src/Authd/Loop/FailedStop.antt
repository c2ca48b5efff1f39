-- ===== src/Authd/Loop/FailedStop.antt =====
-- crates/authd/src/dispatch.rs: the Accounting-Stop of a station that logs off cannot be sent.
use usg_authenticator.Prelude.{
  ◌≡◌, refl, List, [], ◌∷◌, some, true, Result, err, ◌⊎◌, inl, inr, Result-cases, arith,
}
use usg_authenticator.Pacp.Ethernet.{MacAddr}
use usg_authenticator.Pae.Effect.{
  accounting, stop, supplicant_logoff, cancel_all_timers, set_authorization, unauthorized,
  AcctTrigger,
}
use usg_authenticator.Pae.Event.{eapol_logoff}
use usg_authenticator.Pae.Session.{PortSession, authenticated, teardown}
use usg_authenticator.Pae.Step.{step, in_authenticated, by_state}
use usg_authenticator.Pae.Port.{DirectedEffect, PortPae, find, handle, direct, decorate}
use usg_authenticator.Radius.Proto.{Packet, RadiusProto}
use usg_authenticator.Authd.Session.{next_accounting_identifier, build_accounting}
use usg_authenticator.Authd.Deps.{Deps}
use usg_authenticator.Authd.Dispatch.{St, Err, session_of, ctx_for, acct_id_for}
use usg_authenticator.Authd.Loop.{perform, send_accounting, dispatch_all, handle_event}
use usg_authenticator.Authd.Loop.Steps.{drain_err}

module _ (P : RadiusProto) (D : Deps P) (st : St P D) (left : D.World) (x : Err P D)
    (down : (q : Packet) → D.accounting q st.world ≡ (left, err x)) where
  -- A result that is an error, in the world as it was or as the failing request left it.
  abbrev Fails : {A : Type 0} → St P D × Result (Err P D) A → Type 0
  Fails r = ((e : Err P D) × (r.1 ≡ err e)) × ((r.0.world ≡ st.world) ⊎ (r.0.world ≡ left))

  send_accounting-Fails : (mac : MacAddr) (t : AcctTrigger) → Fails (send_accounting P D mac t st)
  unfolding send_accounting
  send_accounting-Fails mac t =
      let o = acct_id_for st.orch mac in
      let n = next_accounting_identifier (session_of o.0 mac).radius in
      elim (Result-cases
        (build_accounting P D.Failure (ctx_for st.orch mac) n.1 t o.1 D.secret n.0)) [
          | inl (q, built) ↦ rw (built, down q) ((x, refl), inr refl)
          | inr (e, refused) ↦ rw refused ((e, refl), inl refl)
        ]

  dispatch_all-Fails :
      (mac : MacAddr) (t : AcctTrigger) (rest : List DirectedEffect)
      → Fails (dispatch_all P D mac (record { mac = some mac; effect = accounting t } ∷ rest) st)
  unfolding dispatch_all perform
  dispatch_all-Fails mac t rest =
      let ((e, failed), where_left) = send_accounting-Fails mac t in
      rw failed ((e, refl), where_left)

  logoff_effects :
      (p : PortPae) (mac : MacAddr) (s : PortSession)
      → find mac p.sessions ≡ some s
      → s.state ≡ authenticated
      → s.accounting_open ≡ true
      → (handle p mac eapol_logoff).1
        ≡ record { mac = some mac; effect = accounting (stop supplicant_logoff) }
          ∷ direct p.cfg.host_mode mac cancel_all_timers
          ∷ direct p.cfg.host_mode mac (set_authorization unauthorized)
          ∷ []
  unfolding handle step by_state in_authenticated teardown decorate
  logoff_effects p mac s found here live = grind arith

  -- If every accounting request fails, the logoff of a station whose session is authenticated and
  -- open ends handle_event with an error, in the world as it was or as the failing request left
  -- it: neither the cancelling of the timers nor the closing of the port, which come after the
  -- Accounting-Stop, is performed.
  pub failed_stop_not_closed :
      (p : PortPae) (mac : MacAddr) (s : PortSession)
      → find mac p.sessions ≡ some s
      → s.state ≡ authenticated
      → s.accounting_open ≡ true
      → let r = (handle_event P D p mac eapol_logoff st).1 in
        ((e : Err P D) × (r.1 ≡ err e)) × ((r.0.world ≡ st.world) ⊎ (r.0.world ≡ left))
  unfolding handle_event
  failed_stop_not_closed p mac s found here live =
      let fails = dispatch_all-Fails mac (stop supplicant_logoff) (
        direct p.cfg.host_mode mac cancel_all_timers
        ∷ direct p.cfg.host_mode mac (set_authorization unauthorized)
        ∷ []) in
      let same = logoff_effects p mac s found here live in
      rw (drain_err P D 63 p mac eapol_logoff [] st {x = fails.0.0} (rw same fails.0.1), same)
        ((fails.0.0, refl), fails.1)
