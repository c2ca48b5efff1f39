-- ===== src/Authd/Config/Valid.antt =====
-- crates/authd/src/config.rs: exactly which configurations are accepted.
use usg_authenticator.Prelude.{
  ℕ, ◌≤◌, ◌≡◌, ◌≢◌, ◌↔◌, refl, List, [], ◌∷◌, true, false, none, some, Text, text_eq_iff, ok, arith,
  All, Option-cases, inl, inr, ◌++◌,
}
use usg_authenticator.Std.Parse.{parse_u16}
use usg_authenticator.Authd.Config.{
  PortConfig, AuthdConfig, rsplit_once, is_host_port, contains, check_ports, validate,
}

abbrev pub Fresh : Text → List Text → Type 0
Fresh name [] = Unit
Fresh name (n ∷ ns) = (n ≢ name) × Fresh name ns

-- Every name is given, and differs from those before it.
abbrev pub GoodNames : List Text → List PortConfig → Type 0
GoodNames seen [] = Unit
GoodNames seen (p ∷ ps) = (p.name ≢ []) × Fresh p.name seen × GoodNames (p.name ∷ seen) ps

contains_iff : (name : Text) (ns : List Text) → (contains name ns ≡ false) ↔ Fresh name ns
unfolding contains
contains_iff name [] = ground arith
contains_iff name (n ∷ ns) = ground (arith, text_eq_iff n name, contains_iff name ns)

check_ports_iff :
    (seen : List Text) (ps : List PortConfig) → (check_ports seen ps ≡ ok tt) ↔ GoodNames seen ps
unfolding check_ports
check_ports_iff seen [] = ground arith
check_ports_iff seen (p ∷ ps) =
    ground (arith, contains_iff p.name seen, check_ports_iff (p.name ∷ seen) ps)

-- A host, a colon, and a port number other than 0 that has no colon in it.
abbrev pub IsHostPort : Text → Type 0
IsHostPort addr =
    (host : Text) × (port : Text) × (n : ℕ) × (addr ≡ host ++ (b':' ∷ port))
    × (host ≢ [])
    × All (λ c. c ≢ b':') port
    × (parse_u16 port ≡ some n)
    × (n ≢ 0)

no_colon : (t : Text) → rsplit_once t ≡ none → All (λ c. c ≢ b':') t
unfolding rsplit_once
no_colon [] h = tt
no_colon (c ∷ cs) h = ground (arith, no_colon cs)

rsplit_once_no_colon : (t : Text) → All (λ c. c ≢ b':') t → rsplit_once t ≡ none
unfolding rsplit_once
rsplit_once_no_colon [] h = refl
rsplit_once_no_colon (c ∷ cs) h = ground (arith, rsplit_once_no_colon cs)

rsplit_once-some :
    (t host port : Text)
    → rsplit_once t ≡ some (host, port)
    → (t ≡ host ++ (b':' ∷ port)) × All (λ c. c ≢ b':') port
unfolding rsplit_once
rsplit_once-some [] host port h = cc
rsplit_once-some (c ∷ cs) host port h = elim (Option-cases (rsplit_once cs)) [
  | inl e ↦ ground (arith, no_colon cs e)
  | inr ((a, b), e) ↦ ground (arith, rsplit_once-some cs a b e)
]

rsplit_once-append :
    (host port : Text)
    → All (λ c. c ≢ b':') port
    → rsplit_once (host ++ (b':' ∷ port)) ≡ some (host, port)
unfolding rsplit_once
rsplit_once-append [] port h = ground (arith, rsplit_once_no_colon port h)
rsplit_once-append (c ∷ cs) port h = ground (arith, rsplit_once-append cs port h)

is_host_port_iff : (addr : Text) → (is_host_port (rsplit_once addr) ≡ true) ↔ IsHostPort addr
is_host_port_iff addr = (
  λ h. elim (Option-cases (rsplit_once addr)) [
    | inl e ↦ ground arith
    | inr ((host, port), e) ↦ elim (Option-cases (parse_u16 port)) [
      | inl e' ↦ ground arith
      | inr (n, e') ↦
          let (split, free) = rsplit_once-some addr host port e in
          (host, port, n, split, ground arith, free, e', ground arith)
    ]
  ],
  λ (host, port, n, split, given, free, parsed, positive).
      rw (split, rsplit_once-append host port free) (ground arith),
)

pub record IsValid (c : AuthdConfig) : Type 0 where
  pub bounded : (1 ≤ c.io_timeout_secs) × (c.io_timeout_secs ≤ 120)
  pub reachable : IsHostPort c.radius.server_addr
  pub named : c.radius.server_name ≢ []
  pub trusted : c.radius.ca_pem ≢ []
  pub certified : c.radius.client_cert_pem ≢ []
  pub keyed : c.radius.client_key_pem ≢ []
  pub serving : c.ports ≢ []
  pub distinct : GoodNames [] c.ports

-- A configuration is accepted exactly if every required field is given, the timeout is from 1 to
-- 120 seconds, the address of the server is a host and a port other than 0, and the ports, at
-- least one, have names that are not empty and that differ.
pub validate_iff : (c : AuthdConfig) → (validate c ≡ ok tt) ↔ IsValid c
unfolding validate rsplit_once
validate_iff c = (
  λ h. record {
    bounded = ground arith;
    reachable = (is_host_port_iff c.radius.server_addr).0 (ground arith);
    named = ground arith;
    trusted = ground arith;
    certified = ground arith;
    keyed = ground arith;
    serving = ground arith;
    distinct = (check_ports_iff [] c.ports).0 (ground arith);
  },
  λ v.
      let reachable = (is_host_port_iff c.radius.server_addr).1 v.reachable in
      let distinct = (check_ports_iff [] c.ports).1 v.distinct in ground arith,
)
