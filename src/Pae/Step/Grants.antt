-- ===== src/Pae/Step/Grants.antt =====
-- crates/pae/src/session.rs: what can open the controlled port, and to which VLAN.
use usg_authenticator.Prelude.{◌≡◌, ◌≢◌, refl, List, [], ◌∷◌, arith}
use usg_authenticator.Pae.Config.{PaeConfig}
use usg_authenticator.Pae.Effect.{Authorization, authorized, Effect, set_authorization}
use usg_authenticator.Pae.Event.{
  Event, enable, link_down, access_accept, coa_disconnect, coa_reauthenticate, coa_authorize,
}
use usg_authenticator.Pae.Session.{
  State, new, connecting, auth_server, authenticating, authenticated, held, in_fallback,
  PortSession,
}
use usg_authenticator.Pae.Step.{step, by_state}

-- The authorizations that a list of effects opens the port with.
abbrev pub grants : List Effect → List Authorization
grants [] = []
grants (set_authorization (authorized a) ∷ es) = a ∷ grants es
grants (e ∷ es) = grants es

-- The authorizations that the server has granted by an event, in a state that accepts it.
abbrev pub granted : State → Event → List Authorization
granted auth_server (access_accept a _) = a ∷ []
granted authenticated (coa_authorize a) = a ∷ []
granted _ _ = []

by_state-grants :
    (t : State) (s : PortSession) (e : Event) (cfg : PaeConfig)
    → s.state ≡ t
    → ((a : Authorization) → e ≢ coa_authorize a)
    → grants (by_state t s e cfg).1 ≡ granted t e
unfolding by_state
by_state-grants t s (coa_authorize a) cfg h n = absurd (n a refl)
by_state-grants connecting s e cfg h n = ground arith
by_state-grants auth_server s e cfg h n = ground arith
by_state-grants authenticating s e cfg h n = ground arith
by_state-grants authenticated s e cfg h n = ground arith
by_state-grants held s e cfg h n = ground arith
by_state-grants (in_fallback r) s e cfg h n = ground arith
by_state-grants new s e cfg h n = ground arith

-- In every state and for every event, the authorizations that a step opens the port with are
-- exactly what an Access-Accept carries that reaches a session waiting for the server, or what a
-- CoA carries that reaches an authenticated session, and none else: a CoA that reaches a session
-- in any other state, an open one that re-authenticates included, opens the port with nothing.
pub grants-step :
    (s : PortSession) (e : Event) (cfg : PaeConfig) → grants (step s e cfg).1 ≡ granted s.state e
unfolding step
grants-step s (coa_authorize a) cfg = ground arith
grants-step s link_down cfg = ground arith
grants-step s coa_disconnect cfg = ground arith
grants-step s coa_reauthenticate cfg = ground arith
grants-step s enable cfg = ground arith
grants-step s e cfg = by_state-grants s.state s e cfg refl (λ a c. cc)
