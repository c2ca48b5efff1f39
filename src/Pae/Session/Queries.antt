-- ===== src/Pae/Session/Queries.antt =====
-- crates/pae/src/session.rs: what a session tells about itself.
use usg_authenticator.Prelude.{Bool, true, false}
use usg_authenticator.Pae.Session.{AuthKind, dot1x, mab, PortSession, is_authenticated}

abbrev is_mab_kind : AuthKind → Bool
is_mab_kind dot1x = false
is_mab_kind mab = true

unfoldable pub is_authorized : PortSession → Bool
is_authorized s = is_authenticated s.state

unfoldable pub is_mab : PortSession → Bool
is_mab s = is_mab_kind s.auth_kind
