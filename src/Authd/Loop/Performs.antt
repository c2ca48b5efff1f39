-- ===== src/Authd/Loop/Performs.antt =====
-- crates/authd/src/dispatch.rs: what performing the effects of an event makes of what the boundaries
-- keep of the stations.
use usg_authenticator.Prelude.{
  ℕ, ◌∙◌, map, ◌≡◌, ◌≢◌, refl, List, [], ◌∷◌, false, Option, some, ok, arith,
}
use usg_authenticator.Pacp.Ethernet.{MacAddr, mac_eq_iff}
use usg_authenticator.Pae.Config.{TimerKind, HostMode}
use usg_authenticator.Pae.Effect.{
  AcctTrigger, Effect, tx_eap_to_supplicant, to_auth_server, start_mab, set_authorization,
  arm_timer, cancel_timer, cancel_all_timers, accounting,
}
use usg_authenticator.Pae.Event.{Event}
use usg_authenticator.Pae.Port.{DirectedEffect, direct, decorate, is_multi_host}
use usg_authenticator.Pae.World.{World, perform_all}
use usg_authenticator.Radius.Proto.{RadiusProto}
use usg_authenticator.Authd.Deps.{Deps}
use usg_authenticator.Authd.Timers.{duration}
use usg_authenticator.Authd.Observed.{Station, Observed, Covers}
use usg_authenticator.Authd.Dispatch.{St, relay_eap, bypass, timer_duration}
use usg_authenticator.Authd.Loop.Steps.{dispatch_all_none, dispatch_all_first}
use usg_authenticator.Authd.Loop.{perform, send_accounting, dispatch_all}

module _ (P : RadiusProto) (D : Deps P) (O : Observed P D) where
  abbrev pub seen : St P D → MacAddr → Station
  seen st n = O.look st.world n

  relay_eap-seen :
      (mac : MacAddr) (eap : List ℕ) (st : St P D) (n : MacAddr)
      → seen (relay_eap P D mac eap st).0 n ≡ seen st n
  unfolding relay_eap
  relay_eap-seen mac eap st n = grind (arith, O.generate-look, O.access_request-look)

  bypass-seen :
      (mac : MacAddr) (st : St P D) (n : MacAddr) → seen (bypass P D mac st).0 n ≡ seen st n
  unfolding bypass
  bypass-seen mac st n = grind (arith, O.generate-look, O.access_request-look)

  send_accounting-seen :
      (mac : MacAddr) (trigger : AcctTrigger) (st : St P D) (n : MacAddr)
      → seen (send_accounting P D mac trigger st).0 n ≡ seen st n
  unfolding send_accounting
  send_accounting-seen mac trigger st n = grind (arith, O.accounting-look)

  -- The timer of every kind but the lifetime of a session has a length.
  arm-Covers :
      (mac : MacAddr) (k : TimerKind) (st : St P D) (w : World)
      → Covers w (seen st mac)
      → Covers
          (perform_all (arm_timer k ∷ []) w)
          (seen (perform P D (some mac) (arm_timer k) st).0 mac)
  unfolding perform timer_duration duration
  arm-Covers mac k st w h = grind (arith, O.arm-look, mac_eq_iff mac mac)

  arm-others :
      (mac : MacAddr) (k : TimerKind) (st : St P D) (n : MacAddr)
      → n ≢ mac
      → seen (perform P D (some mac) (arm_timer k) st).0 n ≡ seen st n
  unfolding perform timer_duration duration
  arm-others mac k st n ne = grind (arith, O.arm-look, mac_eq_iff mac n)

  -- What a station's effect that succeeds asks for is what is kept of the station.
  perform-Covers :
      (mac : MacAddr) (e : Effect) (st : St P D) (w : World) (f : Option Event)
      → (perform P D (some mac) e st).1 ≡ ok f
      → Covers w (seen st mac)
      → Covers (perform_all (e ∷ []) w) (seen (perform P D (some mac) e st).0 mac)
  unfolding perform
  perform-Covers mac (tx_eap_to_supplicant eap) st w f r h = grind (arith, O.send_eap-look)
  perform-Covers mac (to_auth_server eap) st w f r h = rw (relay_eap-seen mac eap st mac) h
  perform-Covers mac (start_mab m) st w f r h = rw (bypass-seen m st mac) h
  perform-Covers mac (set_authorization a) st w f r h =
      grind (arith, O.enforce-look, mac_eq_iff mac mac)
  perform-Covers mac (arm_timer k) st w f r h = arm-Covers mac k st w h
  perform-Covers mac (cancel_timer k) st w f r h = grind (arith, O.cancel-look, mac_eq_iff mac mac)
  perform-Covers mac cancel_all_timers st w f r h =
      grind (arith, O.cancel_all-look, mac_eq_iff mac mac)
  perform-Covers mac (accounting trigger) st w f r h =
      rw (send_accounting-seen mac trigger st mac) h

  perform-others :
      (mac : MacAddr) (e : Effect) (st : St P D) (n : MacAddr) (f : Option Event)
      → (perform P D (some mac) e st).1 ≡ ok f
      → n ≢ mac
      → seen (perform P D (some mac) e st).0 n ≡ seen st n
  unfolding perform
  perform-others mac (tx_eap_to_supplicant eap) st n f r ne = grind (arith, O.send_eap-look)
  perform-others mac (to_auth_server eap) st n f r ne = relay_eap-seen mac eap st n
  perform-others mac (start_mab m) st n f r ne = bypass-seen m st n
  perform-others mac (set_authorization a) st n f r ne =
      grind (arith, O.enforce-look, mac_eq_iff mac n)
  perform-others mac (arm_timer k) st n f r ne = arm-others mac k st n ne
  perform-others mac (cancel_timer k) st n f r ne = grind (arith, O.cancel-look, mac_eq_iff mac n)
  perform-others mac cancel_all_timers st n f r ne =
      grind (arith, O.cancel_all-look, mac_eq_iff mac n)
  perform-others mac (accounting trigger) st n f r ne = send_accounting-seen mac trigger st n

  module _ (mode : HostMode) (apart : is_multi_host mode ≡ false) (mac : MacAddr) where
    abbrev own : Effect → DirectedEffect
    own e = record { mac = some mac; effect = e }

    direct-own : (e : Effect) → direct mode mac e ≡ own e
    direct-own e = rw apart refl

    decorate-own : (fx : List Effect) → decorate mode mac fx ≡ map own fx
    unfolding decorate
    decorate-own [] = refl
    decorate-own (e ∷ fx) = rw (direct-own e, decorate-own fx) refl

    own-Covers :
        (fx : List Effect) (st : St P D) (w : World) (q : List (MacAddr × Event))
        → (dispatch_all P D mac (map own fx) st).1 ≡ ok q
        → Covers w (seen st mac)
        → Covers (perform_all fx w) (seen (dispatch_all P D mac (map own fx) st).0 mac)
    own-Covers [] st w q r h = rw (dispatch_all_none P D mac st) h
    own-Covers (e ∷ fx) st w q r h =
        let ((f, went), (more, on), same) =
          dispatch_all_first P D mac (own e) (map own fx) st q r in
        rw same (
          own-Covers fx (perform P D (some mac) e st).0 (perform_all (e ∷ []) w) more on
            (perform-Covers mac e st w f went h))

    own-others :
        (fx : List Effect) (st : St P D) (n : MacAddr) (q : List (MacAddr × Event))
        → (dispatch_all P D mac (map own fx) st).1 ≡ ok q
        → n ≢ mac
        → seen (dispatch_all P D mac (map own fx) st).0 n ≡ seen st n
    own-others [] st n q r ne = rw (dispatch_all_none P D mac st) refl
    own-others (e ∷ fx) st n q r ne =
        let ((f, went), (more, on), same) =
          dispatch_all_first P D mac (own e) (map own fx) st q r in
        rw same (
          own-others fx (perform P D (some mac) e st).0 n more on ne
          ∙ perform-others mac e st n f went ne)

    -- Where all effects of a station's event succeed, what is kept of the station is what they ask
    -- for, and nothing of any other station changes.
    pub decorated-Covers :
        (ds : List DirectedEffect) (fx : List Effect) (st : St P D) (w : World)
        (q : List (MacAddr × Event))
        → ds ≡ decorate mode mac fx
        → (dispatch_all P D mac ds st).1 ≡ ok q
        → Covers w (seen st mac)
        → Covers (perform_all fx w) (seen (dispatch_all P D mac ds st).0 mac)
    decorated-Covers ds fx st w q is r h =
        let own_effects : ds ≡ map own fx = is ∙ decorate-own fx in
        rw own_effects (own-Covers fx st w q (rw own_effects at r) h)

    pub decorated-others :
        (ds : List DirectedEffect) (fx : List Effect) (st : St P D) (n : MacAddr)
        (q : List (MacAddr × Event))
        → ds ≡ decorate mode mac fx
        → (dispatch_all P D mac ds st).1 ≡ ok q
        → n ≢ mac
        → seen (dispatch_all P D mac ds st).0 n ≡ seen st n
    decorated-others ds fx st n q is r ne =
        let own_effects : ds ≡ map own fx = is ∙ decorate-own fx in
        rw own_effects (own-others fx st n q (rw own_effects at r) ne)
