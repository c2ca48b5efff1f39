-- ===== src/Pae/World/Authorized.antt =====
-- crates/pae/src/session.rs: `is_authorized` and the session that is really open.
use usg_authenticator.Prelude.{◌≡◌, ◌∙◌, true, some, arith, Option, none}
use usg_authenticator.Pae.Effect.{Authorization, authorized}
use usg_authenticator.Pae.Session.{PortSession, is_some}
use usg_authenticator.Pae.Session.Queries
use usg_authenticator.Pae.World.{World, opened}
use usg_authenticator.Pae.World.Consistent.{Consistent, Shows}

-- A consistent session that says that it is authorized is open: accounting has started and not
-- stopped, and the port shows a grant.
pub is_authorized_open :
    (s : PortSession) (w : World)
    → Consistent s w
    → Queries.is_authorized s ≡ true
    → (s.accounting_open ≡ true)
      × (w.ledger ≡ opened)
      × ((a : Authorization) × (w.posture ≡ authorized a))
unfolding Queries.is_authorized
is_authorized_open s w h says =
    let live : s.accounting_open ≡ true = ground (arith, h) in
    (live, ground (arith, h), shows (s.authz) (h.granted ∙ live) h.shown)
  where
    shows :
        (g : Option Authorization)
        → is_some g ≡ true
        → Shows g w.posture
        → (a : Authorization) × (w.posture ≡ authorized a)
    shows none e k = absurd (ground arith)
    shows (some a) e k = (a, k)
