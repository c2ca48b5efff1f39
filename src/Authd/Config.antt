-- ===== src/Authd/Config.antt =====
-- crates/authd/src/config.rs: the daemon's configuration and its validation.
pub mod Valid
use usg_authenticator.Prelude.{
  ℕ, List, [], ◌∷◌, Bool, true, false, not, ◌&&◌, ◌||◌, ltb, ◌==◌, if◌then◌else◌, length, Option,
  none, some, Text, codes, text_eq, Result, ok, err, ◌>>=◌,
}
use usg_authenticator.Std.Parse.{parse_u16}
use usg_authenticator.Pae.Config.{PaeConfig}
use usg_authenticator.Authd.Error.{
  ConfigError, no_ports, duplicate_port, empty_field, bad_timeout, bad_server_addr,
}

pub record RadiusConfig : Type 0 where
  pub server_addr : Text
  pub server_name : Text
  pub ca_pem : List ℕ
  pub client_cert_pem : List ℕ
  pub client_key_pem : List ℕ

pub record PortConfig : Type 0 where
  pub name : Text
  pub pae : PaeConfig

pub record AuthdConfig : Type 0 where
  pub radius : RadiusConfig
  pub ports : List PortConfig
  pub io_timeout_secs : ℕ

abbrev pub max_io_timeout_secs : ℕ
max_io_timeout_secs = 120

abbrev pub is_empty {ℓ} : {A : Type ℓ} → List A → Bool
is_empty [] = true
is_empty (_ ∷ _) = false

abbrev pub keep_host : ℕ → Text × Text → Text × Text
keep_host c (host, port) = (c ∷ host, port)

abbrev extend_split : ℕ → Text → Option (Text × Text) → Option (Text × Text)
extend_split c cs (some (host, port)) = some (c ∷ host, port)
extend_split c cs none = if c == b':' then some ([], cs) else none

-- `rsplit_once(':')`: the parts before and after the last colon.
unfoldable pub rsplit_once : Text → Option (Text × Text)
rsplit_once [] = none
rsplit_once (c ∷ cs) = extend_split c cs (rsplit_once cs)

abbrev nonzero : Option ℕ → Bool
nonzero none = false
nonzero (some p) = not (p == 0)

abbrev pub is_host_port : Option (Text × Text) → Bool
is_host_port none = false
is_host_port (some (host, port)) = not (is_empty host) && nonzero (parse_u16 port)

unfoldable pub contains : Text → List Text → Bool
contains name [] = false
contains name (n ∷ ns) = let rest = contains name ns in if text_eq n name then true else rest

abbrev Checked : Type 0
Checked = Result ConfigError (Unit {0})

abbrev reject_if : Bool → ConfigError → Checked → Checked
reject_if true e rest = err e
reject_if false e rest = rest

-- The loop over the ports; `seen` is the set of names so far.
unfoldable pub check_ports : List Text → List PortConfig → Checked
check_ports seen [] = ok tt
check_ports seen (p ∷ ps) =
    let rest = check_ports (p.name ∷ seen) ps in
    if is_empty p.name
    then err (empty_field (codes "port.name"))
    else if contains p.name seen
    then err (duplicate_port p.name)
    else rest

unfoldable pub validate : AuthdConfig → Checked
validate c =
    reject_if (c.io_timeout_secs == 0 || ltb max_io_timeout_secs c.io_timeout_secs) bad_timeout (
      reject_if (is_empty c.radius.server_addr) (empty_field (codes "radius.server_addr")) (
        reject_if (not (is_host_port (rsplit_once c.radius.server_addr)))
          (bad_server_addr c.radius.server_addr)
          (reject_if (is_empty c.radius.server_name) (empty_field (codes "radius.server_name")) (
            reject_if (is_empty c.radius.ca_pem) (empty_field (codes "radius.ca_pem")) (
              reject_if (is_empty c.radius.client_cert_pem)
                (empty_field (codes "radius.client_cert_pem"))
                (reject_if (is_empty c.radius.client_key_pem)
                  (empty_field (codes "radius.client_key_pem"))
                  (reject_if (is_empty c.ports) no_ports (check_ports [] c.ports))))))))
