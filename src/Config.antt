-- ===== src/Config.antt =====
-- The configuration: eebus-bridge/internal/config/config.go. The file system and the environment
-- are a `Host`; YAML is read by gopkg.in/yaml.v3, a parameter of `load_from_file`. A Go int is an
-- integer; texts are ASCII.
pub mod Numbers
pub mod Address
pub mod Overrides
pub mod Validation
pub mod Ports
pub mod Loading
pub mod Tests
use eebus_ha_bridge.Prelude.{
  ℤ, pos, Bool, true, false, not, ◌&&◌, ◌||◌, Option, none, some, List, [], ◌∷◌, ◌++◌,
  if◌then◌else◌, ltb_ℤ, Result, ok, err, ◌>>=◌, ◌>>◌, guard, wrap,
}
use eebus_ha_bridge.Ski.{Text, codes, eq_text, is_empty, trim_space, is_canonical_ski}
use eebus_ha_bridge.Store.{or_zero}
use eebus_ha_bridge.Config.Numbers.{atoi, parse_bool}
use eebus_ha_bridge.Config.Address.{is_loopback_bind}

-- GRPCSecurityMode is a string
abbrev pub loopback_mode : Text
loopback_mode = codes "loopback"

abbrev pub tls_token_mode : Text
tls_token_mode = codes "tls_token"

pub record GrpcSecurityConfig : Type 0 where
  pub mode : Text
  pub tls_cert_file : Text
  pub tls_key_file : Text
  pub token_file : Text

pub record GrpcConfig : Type 0 where
  pub port : ℤ
  pub bind : Text
  pub enable_reflection : Bool
  pub security : GrpcSecurityConfig

pub record EebusConfig : Type 0 where
  pub port : ℤ
  pub vendor : Text
  pub brand : Text
  pub model : Text
  pub serial : Text

pub record CertificatesConfig : Type 0 where
  pub auto_generate : Option Bool  -- *bool
  pub cert_file : Text
  pub key_file : Text
  pub storage_path : Text

pub record LoggingConfig : Type 0 where
  pub debug_events : Bool
  pub ship_log : Bool
  pub ship_trace : Bool

pub record OhpcfConfig : Type 0 where
  pub enabled : Option Bool  -- *bool

pub record ExperimentalConfig : Type 0 where
  pub mgcp_provider : Bool
  pub vapd_provider : Bool
  pub vabd_provider : Bool
  pub trust_ski : Text

pub record Config : Type 0 where
  pub grpc : GrpcConfig
  pub eebus : EebusConfig
  pub certificates : CertificatesConfig
  pub logging : LoggingConfig
  pub ohpcf : OhpcfConfig
  pub experimental : ExperimentalConfig

-- The environment variables that are read.
pub data EnvKey : Type 0 where
  eebus_grpc_port eebus_grpc_bind eebus_grpc_reflection eebus_grpc_security_mode
        eebus_grpc_tls_cert_file eebus_grpc_tls_key_file eebus_grpc_token_file eebus_port
        eebus_vendor eebus_brand eebus_model eebus_serial eebus_cert_file eebus_key_file
        eebus_cert_storage eebus_debug_events eebus_ship_log eebus_ship_trace
        eebus_exp_mgcp_provider eebus_exp_vapd_provider eebus_exp_vabd_provider eebus_ohpcf_enabled
        eebus_exp_trust_ski :
      EnvKey

-- What a port is called in an error: a key of the file, or a variable.
pub data PortName : Type 0 where
  grpc_port eebus_port_name : PortName
  env : EnvKey → PortName

pub data ConfigError : Type 0 where
  reading_config_file parsing_config_file : ConfigError
  applying_environment_overrides : ConfigError → ConfigError
  validating_after_overrides : List EnvKey → ConfigError → ConfigError
  not_an_integer_port not_a_boolean : EnvKey → ConfigError
  port_out_of_range : PortName → ℤ → ConfigError
  bind_empty : ConfigError
  bad_security_mode : Text → ConfigError
  bad_trust_ski : ConfigError
  validating_certificates validating_grpc_security validating_providers validating_experimental :
      ConfigError → ConfigError
  cert_and_key_together auto_generate_with_files auto_generate_without_storage
        no_certificate_source :
      ConfigError
  missing_certificate_files : Text → ConfigError
  needs_loopback_bind : Text → ConfigError
  needs_tls_and_token_files loading_key_pair : ConfigError
  reading_token_file token_file_empty : Text → ConfigError
  unknown_security_mode : Text → ConfigError
  providers_need_tls_token : ConfigError

-- What the process sees of its machine.
pub record Host : Type 0 where
  pub lookup_env : EnvKey → Option Text  -- os.LookupEnv
  pub read_file : Text → Option Text  -- os.ReadFile, without its error
  pub file_exists : Text → Text → Bool  -- fileExists(filepath.Join(directory, name))
  pub loads_key_pair : Text → Text → Bool  -- tls.LoadX509KeyPair has no error

unfoldable pub default_config : Config
default_config = record {
  grpc = record {
    port = pos 50051;
    bind = codes "127.0.0.1";
    enable_reflection = false;
    security = record {
      mode = loopback_mode;
      tls_cert_file = [];
      tls_key_file = [];
      token_file = [];
    };
  };
  eebus = record {
    port = pos 4712;
    vendor = codes "HomeAssistant";
    brand = codes "Home Assistant";
    model = codes "eebus-bridge";
    serial = [];
  };
  certificates = record {
    auto_generate = none;
    cert_file = [];
    key_file = [];
    storage_path = codes "/data/certs";
  };
  logging = record { debug_events = false; ship_log = false; ship_trace = false };
  ohpcf = record { enabled = some true };
  experimental = record {
    mgcp_provider = false;
    vapd_provider = false;
    vabd_provider = false;
    trust_ski = [];
  };
}

unfoldable pub apply_post_load_defaults : Config → Config
apply_post_load_defaults cfg = elim (cfg.certificates.auto_generate) [
  | some _ ↦ cfg
  | none ↦ record cfg {
    certificates = record cfg.certificates {
      auto_generate =
          some (is_empty cfg.certificates.cert_file && is_empty cfg.certificates.key_file);
    };
  }
]

unfoldable pub validate_port : PortName → ℤ → Result ConfigError Unit
validate_port name port =
    guard (ltb_ℤ port (pos 1) || ltb_ℤ (pos 65535) port) (port_out_of_range name port)

unfoldable pub validate_ports : ℤ → ℤ → Result ConfigError Unit
validate_ports grpc_port_value eebus_port_value = do
  validate_port grpc_port grpc_port_value
  validate_port eebus_port_name eebus_port_value

unfoldable pub parse_env_port : EnvKey → Text → Result ConfigError ℤ
parse_env_port name value = elim (atoi value) [
  | none ↦ err (not_an_integer_port name)
  | some port ↦ do validate_port (env name) port; ok port
]

unfoldable pub parse_env_bool : EnvKey → Text → Result ConfigError Bool
parse_env_bool name value = elim (parse_bool value) [
  | none ↦ err (not_a_boolean name)
  | some enabled ↦ ok enabled
]

unfoldable pub validate_certificates : Host → CertificatesConfig → Result ConfigError Unit
validate_certificates host cfg =
    let auto_generate = or_zero false cfg.auto_generate in
    let has_cert = not (is_empty cfg.cert_file) in
    let has_key = not (is_empty cfg.key_file) in
    if (has_cert && not has_key) || (not has_cert && has_key)
    then err cert_and_key_together
    else if auto_generate
    then (do
      guard (has_cert || has_key) auto_generate_with_files
      guard (is_empty cfg.storage_path) auto_generate_without_storage)
    else if has_cert
    then ok tt
    else if is_empty cfg.storage_path
    then err no_certificate_source
    else guard
        (not (host.file_exists cfg.storage_path (codes "cert.pem"))
          || not (host.file_exists cfg.storage_path (codes "key.pem")))
        (missing_certificate_files cfg.storage_path)

-- The case of tls_token in validateGRPCSecurity.
unfoldable pub validate_tls_token : Host → GrpcSecurityConfig → Result ConfigError Unit
validate_tls_token host security =
    if is_empty security.tls_cert_file
      || is_empty security.tls_key_file
      || is_empty security.token_file
    then err needs_tls_and_token_files
    else if not (host.loads_key_pair security.tls_cert_file security.tls_key_file)
    then err loading_key_pair
    else elim (host.read_file security.token_file) [
      | none ↦ err (reading_token_file security.token_file)
      | some token ↦ guard (is_empty (trim_space token)) (token_file_empty security.token_file)
    ]

unfoldable pub validate_grpc_security : Host → GrpcConfig → Result ConfigError Unit
validate_grpc_security host cfg =
    if eq_text cfg.security.mode loopback_mode
    then guard (not (is_loopback_bind cfg.bind)) (needs_loopback_bind cfg.bind)
    else if eq_text cfg.security.mode tls_token_mode
    then validate_tls_token host cfg.security
    else err (unknown_security_mode cfg.security.mode)

unfoldable pub validate_provider_config : ExperimentalConfig → GrpcConfig → Result ConfigError Unit
validate_provider_config experimental grpc =
    if not experimental.mgcp_provider
      && not experimental.vapd_provider
      && not experimental.vabd_provider
    then ok tt
    else guard (eq_text grpc.security.mode loopback_mode && not (is_loopback_bind grpc.bind))
        providers_need_tls_token

unfoldable pub validate_experimental_config : ExperimentalConfig → Result ConfigError Unit
validate_experimental_config cfg =
    if is_empty cfg.trust_ski
    then ok tt
    else guard (not (is_canonical_ski cfg.trust_ski)) bad_trust_ski

unfoldable pub validate : Host → Config → Result ConfigError Unit
validate host cfg = do
  validate_ports cfg.grpc.port cfg.eebus.port
  wrap validating_certificates (validate_certificates host cfg.certificates)
  wrap validating_grpc_security (validate_grpc_security host cfg.grpc)
  wrap validating_providers (validate_provider_config cfg.experimental cfg.grpc)
  wrap validating_experimental (validate_experimental_config cfg.experimental)
