-- ===== src/Radsec/Tls/Policy.antt =====
-- crates/radsec/src/fips.rs and tls.rs: what a client configuration that is built can offer.
use usg_authenticator.Prelude.{
  ℕ, ◌≡◌, ◌≢◌, ◌↔◌, List, [], ◌∷◌, true, false, none, some, ok, err, arith, Result-cases, inl, inr,
}
use usg_authenticator.Radsec.Framing.{not_fips}
use usg_authenticator.Radsec.Tls.{
  Rustls, CryptoProvider, is_fips, provider, assert_policy, assert_fips, load_certs, load_key,
  add_roots, non_empty, build, client_config,
}

-- One member, and it is the one with this code point.
abbrev pub Only : {A : Type 0} → (A → ℕ) → ℕ → List A → Type 0
Only f n (a ∷ []) = f a ≡ n
Only f n _ = ⊥

module _ (X : Rustls) (P : Type 0) where
  -- A provider passes the check exactly if its module is FIPS-validated and it offers one key
  -- exchange group, which is ML-KEM-1024, and one suite, which is AES-256-GCM with SHA-384; and the
  -- missing validation is what is reported first.
  pub assert_fips_iff :
      (p : CryptoProvider X)
      → ((assert_fips X P p ≡ ok tt) ↔ (
          (is_fips X p ≡ true)
          × Only X.name X.named_mlkem1024 p.kx_groups
          × Only X.suite X.suite_aes_256_gcm_sha384 p.cipher_suites))
        × ((assert_fips X P p ≡ err not_fips) ↔ (is_fips X p ≡ false))
  unfolding assert_fips assert_policy
  assert_fips_iff p = ground arith

  -- The roots with every certificate added, in order, each with success.
  abbrev Adds : List X.Cert → X.Roots → X.Roots → Type 0
  Adds [] r s = r ≡ s
  Adds (c ∷ cs) r s = (t : X.Roots) × (X.add c r ≡ ok t) × Adds cs t s

  add_roots-Adds : (cs : List X.Cert) (r s : X.Roots) → add_roots X P cs r ≡ ok s → Adds cs r s
  unfolding add_roots
  add_roots-Adds [] r s h = ground arith
  add_roots-Adds (c ∷ cs) r s h = elim (Result-cases (X.add c r)) [
    | inl (t, e) ↦ (t, e, add_roots-Adds cs t s (ground arith))
    | inr (x, e) ↦ absurd (ground arith)
  ]

  -- What a configuration is made of, in the terms of rustls: a FIPS-validated provider with the one
  -- group and the one suite, TLS 1.3 alone, at least one trust anchor, all of them added to the
  -- roots, a client chain that is not empty, and a key.
  pub record BuiltOf (anchors_pem cert_pem key_pem : List ℕ) (config : X.ClientConfig)
      : Type 0 where
    pub groups : List X.KxGroup
    pub suites : List X.CipherSuite
    pub module_of : X.Module
    pub validated : X.fips groups suites module_of ≡ true
    pub group_only : Only X.name X.named_mlkem1024 groups
    pub suite_only : Only X.suite X.suite_aes_256_gcm_sha384 suites
    pub builder : X.Builder
    pub versioned : X.with_protocol_versions groups suites module_of (X.tls13 ∷ []) ≡ ok builder
    pub anchors : List X.Cert
    pub roots : X.Roots
    pub chain : List X.Cert
    pub key : X.Key
    pub anchored : (X.certs anchors_pem ≡ ok anchors) × (anchors ≢ [])
    pub rooted : Adds anchors X.empty_roots roots
    pub chained : (X.certs cert_pem ≡ ok chain) × (chain ≢ [])
    pub keyed : X.private_key key_pem ≡ ok (some key)
    pub presented :
        X.with_client_auth_cert chain key (X.with_root_certificates roots builder) ≡ ok config

  -- The steps of the code that lead to a configuration.
  record Steps (a c k : List ℕ) (config : X.ClientConfig) : Type 0 where
    pub anchors : List X.Cert
    pub roots : X.Roots
    pub chain : List X.Cert
    pub key : X.Key
    pub allowed : assert_fips X P (provider X) ≡ ok tt
    pub anchored : (X.certs a ≡ ok anchors) × (anchors ≢ [])
    pub rooted : add_roots X P anchors X.empty_roots ≡ ok roots
    pub chained : (X.certs c ≡ ok chain) × (chain ≢ [])
    pub keyed : X.private_key k ≡ ok (some key)
    pub is_built : build X P (provider X) roots chain key ≡ ok config

  client_config-key :
      (a c k : List ℕ) (anchors chain : List X.Cert) (roots : X.Roots) (config : X.ClientConfig)
      → X.certs a ≡ ok anchors
      → add_roots X P anchors X.empty_roots ≡ ok roots
      → X.certs c ≡ ok chain
      → client_config X P a c k ≡ ok config
      → Steps a c k config
  unfolding client_config load_certs load_key non_empty
  client_config-key a c k anchors chain roots config ea er ec h =
      elim (Result-cases (X.private_key k)) [
        | inr (x, ek) ↦ absurd (ground arith)
        | inl (none, ek) ↦ absurd (ground arith)
        | inl (some key, ek) ↦ record {
          anchors = anchors;
          roots = roots;
          chain = chain;
          key = key;
          allowed = ground arith;
          anchored = (ea, ground arith);
          rooted = er;
          chained = (ec, ground arith);
          keyed = ek;
          is_built = ground arith;
        }
      ]

  client_config-Steps :
      (a c k : List ℕ) (config : X.ClientConfig)
      → client_config X P a c k ≡ ok config
      → Steps a c k config
  unfolding client_config load_certs
  client_config-Steps a c k config h = elim (Result-cases (X.certs a)) [
    | inr (x, ea) ↦ absurd (ground arith)
    | inl (anchors, ea) ↦ elim (Result-cases (add_roots X P anchors X.empty_roots)) [
      | inr (x, er) ↦ absurd (ground arith)
      | inl (roots, er) ↦ elim (Result-cases (X.certs c)) [
        | inr (x, ec) ↦ absurd (ground arith)
        | inl (chain, ec) ↦ client_config-key a c k anchors chain roots config ea er ec h
      ]
    ]
  ]

  -- A configuration is produced only from a provider that reports FIPS validation and offers one
  -- key exchange group, which is ML-KEM-1024, and one suite, which is AES-256-GCM with SHA-384,
  -- for TLS 1.3 alone, with at least one trust anchor, every one of which was added to the roots,
  -- a client chain that is not empty, and a key.
  pub client_config-ok :
      (anchors_pem cert_pem key_pem : List ℕ) (config : X.ClientConfig)
      → client_config X P anchors_pem cert_pem key_pem ≡ ok config
      → BuiltOf anchors_pem cert_pem key_pem config
  unfolding build
  client_config-ok a c k config h =
      let s = client_config-Steps a c k config h in
      let p = provider X in
      let policy = (assert_fips_iff p).0.0 s.allowed in
      elim (Result-cases
        (X.with_protocol_versions p.kx_groups p.cipher_suites p.rest (X.tls13 ∷ []))) [
          | inr (x, e) ↦ absurd (ground (arith, s.is_built))
          | inl (builder, e) ↦ record {
            groups = p.kx_groups;
            suites = p.cipher_suites;
            module_of = p.rest;
            validated = policy.0;
            group_only = policy.1;
            suite_only = policy.2;
            builder = builder;
            versioned = e;
            anchors = s.anchors;
            roots = s.roots;
            chain = s.chain;
            key = s.key;
            anchored = s.anchored;
            rooted = add_roots-Adds s.anchors X.empty_roots s.roots s.rooted;
            chained = s.chained;
            keyed = s.keyed;
            presented = ground (arith, s.is_built);
          }
        ]
