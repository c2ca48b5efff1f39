-- ===== src/Sonic/Enforcer/Display.antt =====
-- crates/enforce-sonic/src/error.rs: the text of an error. `quoted` is `{:?}` of a text and `shown` the
-- text of an error of the connection.
use usg_authenticator.Prelude.{◌++◌, Text, codes}
use usg_authenticator.Sonic.Db.{Db, config, appl, asic, state}
use usg_authenticator.Sonic.Enforcer.{SonicError, backend, unconfirmed, invalid_vlan}

-- The derived `{:?}`.
abbrev debug_db : Db → Text
debug_db config = codes "Config"
debug_db appl = codes "Appl"
debug_db asic = codes "Asic"
debug_db state = codes "State"

abbrev pub display {ℓ} : {E : Type ℓ} → (Text → Text) → (E → Text) → SonicError E → Text
display quoted shown (backend e) = codes "SONiC DB error: " ++ shown e
display quoted shown (unconfirmed db key) =
    codes "dataplane change not confirmed in " ++ (debug_db db ++ (codes ": " ++ key))
display quoted shown (invalid_vlan v) =
    codes "assigned VLAN " ++ (quoted v ++ codes " is not a SONiC VLAN id (1..=4094)")
