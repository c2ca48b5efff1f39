-- ===== src/Authd/Main.antt =====
-- crates/authd/src/main.rs: the preflight of the daemon's entry point. The lines are those that it
-- prints to its standard error.
use usg_authenticator.Prelude.{List, [], ◌∷◌, ◌++◌, Text, Result, ok, err, codes}
use usg_authenticator.Radsec.Framing.{RadSecError}
use usg_authenticator.Radsec.Tls.{Rustls, provider, assert_fips}
use usg_authenticator.Radsec.Display.{display}

-- `std::process::ExitCode`, as far as it is used.
pub data ExitCode : Type 0 where
  success failure : ExitCode

module _ (X : Rustls) {P : Type 0} (codec : P → Text) (socket : X.IoError → Text)
    (rustls : X.TlsError → Text) where
  abbrev preflight : Result (RadSecError P X.IoError X.TlsError) (Unit {0}) → List Text
  preflight (ok _) =
      codes "authd: FIPS crypto policy validated (ML-KEM-1024 / AES-256-GCM-SHA384)" ∷ []
  preflight (err e) =
      (codes "authd: FIPS preflight not satisfied: " ++ display codec socket rustls e)
      ∷ codes
          "authd: this is expected for a non-`fips` build; build radsec with --features fips for the validated module"
      ∷ []

  unfoldable pub main : List Text × ExitCode
  main = (
    preflight (assert_fips X P (provider X))
        ++ (codes
              "authd: component stack ready. Per-port service uses worker::run_port (EAPOL ↔ PAE ↔ RadSec ↔ SONiC); the config loader and SONiC DbConn backend are the remaining deployment wiring."
            ∷ []),
    success,
  )
