-- ===== src/Tests/Switches.antt =====
-- crates/authd/src/worker.rs: a port of a single host that is served down to the database.
use usg_authenticator.Prelude.{◌≡◌, ◌⊎◌, inr, refl, [], none, Text, text_eq, codes, false, ok}
use usg_authenticator.Pacp.Ethernet.{mac_eq}
use usg_authenticator.Pacp.Frame.{decode_frame}
use usg_authenticator.Pacp.Eap.{request_identity}
use usg_authenticator.Pacp.Pdu
use usg_authenticator.Pae.Config.{default_config, single_host}
use usg_authenticator.Pae.Port.{
  enable_port, find, handle, can_admit, admit, decorate, first_contact, replace, prune,
  active_sessions, drop_new, max_sessions,
}
use usg_authenticator.Pae.Session.{new_session, send_identity}
use usg_authenticator.Pae.Step.{step, by_state, in_connecting, on_enable}
use usg_authenticator.Sonic.Schema.{
  vlan_member_key, acl_table_key, deny_table, eapol_trap_key, plan_eapol_trap,
  close_controlled_port, open_controlled_port, deny_rule_key, eapol_permit_key, from_authorization,
  transition, vlan_delta, filter_delta, open_delta,
}
use usg_authenticator.Sonic.Enforcer.{
  SonicError, ensure_eapol_trap, trap_landed, require_present, require_absent, apply, check_vlan,
  check_filter, change_landed, previous, remember, get_applied, insert_applied,
}
use usg_authenticator.Authd.Timers.{duration}
use usg_authenticator.Authd.Worker.{frame_event, supplicant_frame}
use usg_authenticator.Authd.Dispatch.{new_orchestrator, timer_duration}
use usg_authenticator.Authd.Loop.{apply_effects, perform, handle_event, drain, dispatch_all}
use usg_authenticator.Authd.Worker.Run.{
  Boundary, PortSetup, Serving, serve_all, serve, dispatch_frame, send_eap, PortDeps, run_port,
}
use usg_authenticator.Authd.Worker.Run.Fold.{begun}
use usg_authenticator.Authd.Worker.Run.OnSonic.{
  Host, Switch, sonic_boundary, Displays, run_port-Displays,
}
use usg_authenticator.Tests.Replies.{codec}
use usg_authenticator.Tests.Service.{setup}
use usg_authenticator.Tests.Enforcement.{stream, driven}
use usg_authenticator.Tests.Databases.{port, denied, mirror, mirror-IsDatabase, fresh}

-- A socket, a server and timers that always succeed.
abbrev host : Host
host = record {
  World = Unit;
  Failure = Unit;
  open_socket = λ port w. (w, ok tt);
  send = λ bytes w. (w, ok tt);
  request = λ q w. (w, ok q);
  arm = λ mac k d w. w;
  cancel = λ mac k w. w;
  cancel_all = λ mac w. w;
  generate_request_authenticator = λ w. (w, []);
}

abbrev said : {E : Type 0} → SonicError E → Text
said e = codes "failed"

abbrev single : PortSetup
single = record setup { port = port; pae_cfg = record default_config { host_mode = single_host } }

abbrev switch : Switch mirror host said
switch = record { enforcer = fresh; host = tt }

abbrev B : Boundary
B = sonic_boundary mirror host said

abbrev served : Serving codec (PortDeps codec B single)
served = serve_all codec (PortDeps codec B single) stream (begun codec B single switch)

runs : run_port codec B single stream switch ≡ (served.st.world, ok served)
unfolding run_port apply_effects enable_port perform new_orchestrator ensure_eapol_trap trap_landed
    require_present require_absent plan_eapol_trap close_controlled_port open_controlled_port
    eapol_trap_key deny_rule_key eapol_permit_key acl_table_key deny_table vlan_member_key text_eq
    apply check_vlan check_filter change_landed from_authorization transition vlan_delta
    filter_delta open_delta previous remember get_applied insert_applied
runs = refl

still_running : served.stopped ≡ none
unfolding serve_all serve dispatch_frame frame_event handle_event drain dispatch_all perform step
    by_state in_connecting on_enable send_identity handle find can_admit admit decorate
    first_contact replace prune active_sessions drop_new new_session mac_eq new_orchestrator
    timer_duration duration send_eap supplicant_frame decode_frame Pdu.decode Pdu.get_to Pdu.from_u8
    Pdu.encode_frame Pdu.new request_identity ensure_eapol_trap trap_landed require_present
    require_absent plan_eapol_trap close_controlled_port open_controlled_port eapol_trap_key
    deny_rule_key eapol_permit_key acl_table_key deny_table vlan_member_key text_eq apply check_vlan
    check_filter change_landed from_authorization transition vlan_delta filter_delta open_delta
    previous remember get_applied insert_applied
still_running = refl

no_member : (vlan : Text) → denied.present (vlan_member_key vlan port) ≡ false
unfolding vlan_member_key text_eq
no_member vlan = refl

no_binding : (f : Text) → (f ≡ deny_table port) ⊎ (denied.bound (acl_table_key f) port ≡ false)
no_binding f = inr refl

run_port-Displays_example :
    Displays mirror mirror-IsDatabase host said codec single served.pae.sessions
      served.st.world.enforcer.conn
unfolding max_sessions
run_port-Displays_example =
    run_port-Displays mirror mirror-IsDatabase host said codec single stream switch served.st.world
      served refl refl no_member no_binding driven runs still_running
