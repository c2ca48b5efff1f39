-- ===== src/Radsec/Tls.antt =====
-- crates/radsec/src/fips.rs and tls.rs: the crypto policy, and the client configuration that is built
-- under it. rustls, its crypto module and its PEM reader are a parameter.
pub mod Policy
use usg_authenticator.Prelude.{
  ℕ, List, [], ◌∷◌, Text, Bool, true, false, not, ◌&&◌, ◌==◌, if◌then◌else◌, Option, none, some,
  Result, ok, err, map_err, ok_or, ◌>>=◌,
}
use usg_authenticator.Radsec.Framing.{
  RadSecError, io, tls, not_fips, crypto_policy_violation, no_credential,
}

-- `NamedGroup`, `CipherSuite` and `ProtocolVersion` are their code points.
pub record Rustls : Type 1 where
  pub KxGroup : Type 0
  pub CipherSuite : Type 0
  -- The rest of a provider: signatures, randomness, keys.
  pub Module : Type 0
  pub name : KxGroup → ℕ
  pub suite : CipherSuite → ℕ
  pub mlkem1024 : KxGroup
  pub tls13_aes_256_gcm_sha384 : CipherSuite
  pub named_mlkem1024 : ℕ
  pub suite_aes_256_gcm_sha384 : ℕ
  pub default_module : Module
  pub fips : List KxGroup → List CipherSuite → Module → Bool
  pub Cert : Type 0
  pub Key : Type 0
  pub Roots : Type 0
  pub Builder : Type 0
  pub ClientConfig : Type 0
  pub TlsError : Type 0
  pub IoError : Type 0
  pub tls13 : ℕ
  pub certs : List ℕ → Result IoError (List Cert)
  pub private_key : List ℕ → Result IoError (Option Key)
  pub empty_roots : Roots
  pub add : Cert → Roots → Result TlsError Roots
  pub with_protocol_versions :
      List KxGroup → List CipherSuite → Module → List ℕ → Result TlsError Builder
  pub with_root_certificates : Roots → Builder → Builder
  pub with_client_auth_cert : List Cert → Key → Builder → Result TlsError ClientConfig

module _ (X : Rustls) where
  pub record CryptoProvider : Type 0 where
    pub kx_groups : List X.KxGroup
    pub cipher_suites : List X.CipherSuite
    pub rest : X.Module

  abbrev pub is_fips : CryptoProvider → Bool
  is_fips p = X.fips p.kx_groups p.cipher_suites p.rest

  abbrev pub provider : CryptoProvider
  provider = record {
    kx_groups = X.mlkem1024 ∷ [];
    cipher_suites = X.tls13_aes_256_gcm_sha384 ∷ [];
    rest = X.default_module;
  }

  -- `matches!(…, [g] if g.name() == …)`
  abbrev pub only_mlkem1024 : List X.KxGroup → Bool
  only_mlkem1024 (g ∷ []) = X.name g == X.named_mlkem1024
  only_mlkem1024 _ = false

  abbrev pub only_aes_256 : List X.CipherSuite → Bool
  only_aes_256 (s ∷ []) = X.suite s == X.suite_aes_256_gcm_sha384
  only_aes_256 _ = false

module _ (X : Rustls) (P : Type 0) where
  abbrev pub Checked : Type 0 → Type 0
  Checked A = Result (RadSecError P X.IoError X.TlsError) A

  unfoldable pub assert_policy : CryptoProvider X → Checked (Unit {0})
  assert_policy p =
      if only_mlkem1024 X p.kx_groups && only_aes_256 X p.cipher_suites
      then ok tt
      else err crypto_policy_violation

  unfoldable pub assert_fips : CryptoProvider X → Checked (Unit {0})
  unfolding assert_policy
  assert_fips p = if not (is_fips X p) then err not_fips else assert_policy p

  unfoldable pub load_certs : List ℕ → Checked (List X.Cert)
  load_certs pem = map_err io (X.certs pem)

  unfoldable pub load_key : List ℕ → Checked X.Key
  load_key pem = do found ← map_err io (X.private_key pem); ok_or found no_credential

  unfoldable pub add_roots : List X.Cert → X.Roots → Checked X.Roots
  add_roots [] roots = ok roots
  add_roots (c ∷ cs) roots = do added ← map_err tls (X.add c roots); add_roots cs added

  -- `any_root` is set by the first root that is added.
  abbrev pub is_nil : {A : Type 0} → List A → Bool
  is_nil [] = true
  is_nil (x ∷ xs) = false

  unfoldable pub non_empty : {A : Type 0} → List A → Checked (Unit {0})
  non_empty xs = if is_nil xs then err no_credential else ok tt

  unfoldable pub build : CryptoProvider X → X.Roots → List X.Cert → X.Key → Checked X.ClientConfig
  build p roots chain key = do
    builder ←
        map_err tls (X.with_protocol_versions p.kx_groups p.cipher_suites p.rest (X.tls13 ∷ []))
    map_err tls (X.with_client_auth_cert chain key (X.with_root_certificates roots builder))

  unfoldable pub client_config : List ℕ → List ℕ → List ℕ → Checked X.ClientConfig
  unfolding assert_fips load_certs add_roots non_empty load_key build
  client_config trust_anchors_pem client_cert_pem client_key_pem = do
    _ ← assert_fips (provider X)
    anchors ← load_certs trust_anchors_pem
    roots ← add_roots anchors X.empty_roots
    _ ← non_empty anchors
    chain ← load_certs client_cert_pem
    _ ← non_empty chain
    key ← load_key client_key_pem
    build (provider X) roots chain key
