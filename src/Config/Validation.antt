-- ===== src/Config/Validation.antt =====
-- What Validate of eebus-bridge/internal/config/config.go accepts.
use eebus_ha_bridge.Prelude.{
  none, some, ok, Bool, ◌≡◌, ◌↔◌, ℕ_discrete, refl, Option, ℤ, false, true, ◌⊎◌, arith, wrap,
  wrap-eq-ok, >>-eq-ok,
}
use eebus_ha_bridge.Store.{or_zero}
use eebus_ha_bridge.Ski.{
  Text-discrete, Text, codes, eq_text, is_empty, trim_space, is_canonical_ski,
}
use eebus_ha_bridge.Config.{
  Config, Host, CertificatesConfig, GrpcSecurityConfig, GrpcConfig, ExperimentalConfig,
  loopback_mode, tls_token_mode, validate_port, validate_ports, validate_certificates,
  validate_tls_token, validate_grpc_security, validate_provider_config,
  validate_experimental_config, validate, grpc_port, eebus_port_name,
}
use eebus_ha_bridge.Config.Address.{is_loopback_bind}
use eebus_ha_bridge.Config.Overrides.Settings.{IsPort, eq_text-true, validate_port-IsPort}

-- Where the certificate of the EEBUS service comes from.
pub data HasCertificates (host : Host) (c : CertificatesConfig) : Type 0 where
  configured :
      or_zero false c.auto_generate ≡ false
      → is_empty c.cert_file ≡ false
      → is_empty c.key_file ≡ false
      → HasCertificates host c
  generated :
      or_zero false c.auto_generate ≡ true
      → is_empty c.cert_file ≡ true
      → is_empty c.key_file ≡ true
      → is_empty c.storage_path ≡ false
      → HasCertificates host c
  stored :
      or_zero false c.auto_generate ≡ false
      → is_empty c.cert_file ≡ true
      → is_empty c.key_file ≡ true
      → is_empty c.storage_path ≡ false
      → host.file_exists c.storage_path (codes "cert.pem") ≡ true
      → host.file_exists c.storage_path (codes "key.pem") ≡ true
      → HasCertificates host c

pub record HasTlsToken (host : Host) (s : GrpcSecurityConfig) : Type 0 where
  pub cert_file_set : is_empty s.tls_cert_file ≡ false
  pub key_file_set : is_empty s.tls_key_file ≡ false
  pub token_file_set : is_empty s.token_file ≡ false
  pub key_pair_loads : host.loads_key_pair s.tls_cert_file s.tls_key_file ≡ true
  pub token : Text
  pub token_read : host.read_file s.token_file ≡ some token
  pub token_not_blank : is_empty (trim_space token) ≡ false

-- Who can reach the API: this machine only, or who has the token, over TLS.
pub data IsSecured (host : Host) (g : GrpcConfig) : Type 0 where
  on_loopback : g.security.mode ≡ loopback_mode → is_loopback_bind g.bind ≡ true → IsSecured host g
  by_token : g.security.mode ≡ tls_token_mode → HasTlsToken host g.security → IsSecured host g

pub record IsValid (host : Host) (cfg : Config) : Type 0 where
  pub grpc_port_in_range : IsPort cfg.grpc.port
  pub eebus_port_in_range : IsPort cfg.eebus.port
  pub certificates : HasCertificates host cfg.certificates
  pub security : IsSecured host cfg.grpc
  pub trust_ski :
      (is_empty cfg.experimental.trust_ski ≡ true)
      ⊎ (is_canonical_ski cfg.experimental.trust_ski ≡ true)

true_of_eq : (a b : Text) → a ≡ b → eq_text a b ≡ true
unfolding eq_text
true_of_eq a b e = ground arith

modes_differ : eq_text tls_token_mode loopback_mode ≡ false
unfolding eq_text Text-discrete ℕ_discrete
modes_differ = refl

false_of_modes : (m : Text) → m ≡ tls_token_mode → eq_text m loopback_mode ≡ false
false_of_modes m e = rw e modes_differ

validate_certificates_sound :
    (host : Host) (c : CertificatesConfig)
    → validate_certificates host c ≡ ok tt
    → HasCertificates host c
unfolding validate_certificates
validate_certificates_sound host c h = cases _ _ _ _ _ _ refl refl refl refl refl refl
  where
    cases :
        (a cert key storage f g : Bool)
        → or_zero false c.auto_generate ≡ a
        → is_empty c.cert_file ≡ cert
        → is_empty c.key_file ≡ key
        → is_empty c.storage_path ≡ storage
        → host.file_exists c.storage_path (codes "cert.pem") ≡ f
        → host.file_exists c.storage_path (codes "key.pem") ≡ g
        → HasCertificates host c
    cases a false true s f g p q r t u v = absurd (ground arith)
    cases a true false s f g p q r t u v = absurd (ground arith)
    cases false false false s f g p q r t u v = configured p q r
    cases true false false s f g p q r t u v = absurd (ground arith)
    cases true true true false f g p q r t u v = generated p q r t
    cases true true true true f g p q r t u v = absurd (ground arith)
    cases false true true false true true p q r t u v = stored p q r t u v
    cases false true true true f g p q r t u v = absurd (ground arith)
    cases false true true s true false p q r t u v = absurd (ground arith)
    cases false true true s false g p q r t u v = absurd (ground arith)

validate_certificates_complete :
    (host : Host) (c : CertificatesConfig)
    → HasCertificates host c
    → validate_certificates host c ≡ ok tt
unfolding validate_certificates
validate_certificates_complete host c (configured p q r) = ground arith
validate_certificates_complete host c (generated p q r s) = ground arith
validate_certificates_complete host c (stored p q r s t u) = ground arith

validate_tls_token_sound :
    (host : Host) (s : GrpcSecurityConfig) → validate_tls_token host s ≡ ok tt → HasTlsToken host s
unfolding validate_tls_token
validate_tls_token_sound host s h = cases _ _ _ _ _ refl refl refl refl refl
  where
    cases :
        (a b c l : Bool) (t : Option Text)
        → is_empty s.tls_cert_file ≡ a
        → is_empty s.tls_key_file ≡ b
        → is_empty s.token_file ≡ c
        → host.loads_key_pair s.tls_cert_file s.tls_key_file ≡ l
        → host.read_file s.token_file ≡ t
        → HasTlsToken host s
    cases true b c l t p q r u v = absurd (ground arith)
    cases false true c l t p q r u v = absurd (ground arith)
    cases false false true l t p q r u v = absurd (ground arith)
    cases false false false false t p q r u v = absurd (ground arith)
    cases false false false true none p q r u v = absurd (ground arith)
    cases false false false true (some token) p q r u v = record {
      cert_file_set = p;
      key_file_set = q;
      token_file_set = r;
      key_pair_loads = u;
      token = token;
      token_read = v;
      token_not_blank = ground arith;
    }

validate_tls_token_complete :
    (host : Host) (s : GrpcSecurityConfig) → HasTlsToken host s → validate_tls_token host s ≡ ok tt
unfolding validate_tls_token
validate_tls_token_complete host s t = ground arith

validate_grpc_security_sound :
    (host : Host) (g : GrpcConfig) → validate_grpc_security host g ≡ ok tt → IsSecured host g
unfolding validate_grpc_security
validate_grpc_security_sound host g h = cases _ _ _ refl refl refl
  where
    cases :
        (a b l : Bool)
        → eq_text g.security.mode loopback_mode ≡ a
        → eq_text g.security.mode tls_token_mode ≡ b
        → is_loopback_bind g.bind ≡ l
        → IsSecured host g
    cases true b true p q r = on_loopback (eq_text-true _ _ p) r
    cases true b false p q r = absurd (ground arith)
    cases false true l p q r =
        by_token (eq_text-true _ _ q) (validate_tls_token_sound host g.security (ground arith))
    cases false false l p q r = absurd (ground arith)

validate_grpc_security_complete :
    (host : Host) (g : GrpcConfig) → IsSecured host g → validate_grpc_security host g ≡ ok tt
unfolding validate_grpc_security
validate_grpc_security_complete host g (on_loopback m l) = ground (arith, true_of_eq _ _ m)
validate_grpc_security_complete host g (by_token m t) =
    ground
      (arith, true_of_eq _ _ m, false_of_modes _ m, validate_tls_token_complete host g.security t)

-- The test of the providers adds nothing to the test of the mode.
validate_provider_config-secured :
    (host : Host) (e : ExperimentalConfig) (g : GrpcConfig)
    → IsSecured host g
    → validate_provider_config e g ≡ ok tt
unfolding validate_provider_config
validate_provider_config-secured host e g (on_loopback m l) = ground arith
validate_provider_config-secured host e g (by_token m t) = ground (arith, false_of_modes _ m)

validate_experimental_config_sound :
    (e : ExperimentalConfig)
    → validate_experimental_config e ≡ ok tt
    → (is_empty e.trust_ski ≡ true) ⊎ (is_canonical_ski e.trust_ski ≡ true)
unfolding validate_experimental_config
validate_experimental_config_sound e h = ground arith

validate_experimental_config_complete :
    (e : ExperimentalConfig)
    → (is_empty e.trust_ski ≡ true) ⊎ (is_canonical_ski e.trust_ski ≡ true)
    → validate_experimental_config e ≡ ok tt
unfolding validate_experimental_config
validate_experimental_config_complete e h = ground arith

validate_ports_sound : (p q : ℤ) → validate_ports p q ≡ ok tt → IsPort p × IsPort q
unfolding validate_ports
validate_ports_sound p q h =
    let (a, b) = >>-eq-ok (validate_port grpc_port p) _ h in
    (validate_port-IsPort grpc_port p a, validate_port-IsPort eebus_port_name q b)

validate_ports_complete : (p q : ℤ) → IsPort p → IsPort q → validate_ports p q ≡ ok tt
unfolding validate_ports validate_port
validate_ports_complete p q a b = ground arith

validate_sound : (host : Host) (cfg : Config) → validate host cfg ≡ ok tt → IsValid host cfg
unfolding validate
validate_sound host cfg h =
    let (ports, h₁) = >>-eq-ok (validate_ports cfg.grpc.port cfg.eebus.port) _ h in
    let (certs, h₂) = >>-eq-ok (wrap _ (validate_certificates host cfg.certificates)) _ h₁ in
    let (security, h₃) = >>-eq-ok (wrap _ (validate_grpc_security host cfg.grpc)) _ h₂ in
    let (providers, ski) =
      >>-eq-ok (wrap _ (validate_provider_config cfg.experimental cfg.grpc)) _ h₃ in
    let in_range = validate_ports_sound _ _ ports in
    record {
      grpc_port_in_range = in_range.0;
      eebus_port_in_range = in_range.1;
      certificates = validate_certificates_sound host cfg.certificates (wrap-eq-ok _ _ certs);
      security = validate_grpc_security_sound host cfg.grpc (wrap-eq-ok _ _ security);
      trust_ski = validate_experimental_config_sound cfg.experimental (wrap-eq-ok _ _ ski);
    }

validate_complete : (host : Host) (cfg : Config) → IsValid host cfg → validate host cfg ≡ ok tt
unfolding validate
validate_complete host cfg v =
    rw
      (
        validate_ports_complete cfg.grpc.port cfg.eebus.port v.grpc_port_in_range
            v.eebus_port_in_range,
        validate_certificates_complete host cfg.certificates v.certificates,
        validate_grpc_security_complete host cfg.grpc v.security,
        validate_provider_config-secured host cfg.experimental cfg.grpc v.security,
        validate_experimental_config_complete cfg.experimental v.trust_ski,
      )
      refl

-- Validate accepts a configuration exactly when it is valid: both ports are from 1 to 65535,
-- the certificates are configured, generated or stored, the API is reached only from this machine
-- or with a token over TLS, and the trusted SKI is empty or canonical.
pub validate-IsValid : (host : Host) (cfg : Config) → (validate host cfg ≡ ok tt) ↔ IsValid host cfg
validate-IsValid host cfg = (validate_sound host cfg, validate_complete host cfg)
