-- ===== src/Tests/Policy.antt =====
-- crates/radsec/src/tls.rs: a configuration that is built on a validated module.
use usg_authenticator.Prelude.{ℕ, ◌≡◌, refl, List, [], ◌∷◌, true, some, ok}
use usg_authenticator.Radsec.Tls.{
  Rustls, assert_policy, assert_fips, load_certs, load_key, add_roots, non_empty, build,
  client_config,
}
use usg_authenticator.Radsec.Tls.Policy.{BuiltOf, client_config-ok}

-- Certificates are the octets of their text, and a configuration is the chain that it presents.
abbrev pub library : Rustls
library = record {
  KxGroup = ℕ;
  CipherSuite = ℕ;
  Module = Unit;
  name = λ g. g;
  suite = λ s. s;
  mlkem1024 = 0x202;
  tls13_aes_256_gcm_sha384 = 0x1302;
  named_mlkem1024 = 0x202;
  suite_aes_256_gcm_sha384 = 0x1302;
  default_module = tt;
  fips = λ gs ss m. true;
  Cert = ℕ;
  Key = List ℕ;
  Roots = List ℕ;
  Builder = List ℕ;
  ClientConfig = List ℕ;
  TlsError = Unit;
  IoError = Unit;
  tls13 = 0x304;
  certs = λ pem. ok pem;
  private_key = λ pem. ok (some pem);
  empty_roots = [];
  add = λ c roots. ok (c ∷ roots);
  with_protocol_versions = λ gs ss m vs. ok vs;
  with_root_certificates = λ roots b. b;
  with_client_auth_cert = λ chain key b. ok chain;
}

configured : client_config library Unit (1 ∷ []) (2 ∷ 3 ∷ []) (4 ∷ []) ≡ ok (2 ∷ 3 ∷ [])
unfolding client_config assert_fips assert_policy load_certs add_roots non_empty load_key build
configured = refl

client_config-ok_example : BuiltOf library Unit (1 ∷ []) (2 ∷ 3 ∷ []) (4 ∷ []) (2 ∷ 3 ∷ [])
client_config-ok_example =
    client_config-ok library Unit (1 ∷ []) (2 ∷ 3 ∷ []) (4 ∷ []) (2 ∷ 3 ∷ []) configured
