-- ===== src/Config/Overrides.antt =====
-- applyEnvOverrides of eebus-bridge/internal/config/config.go. Its steps are a list, one for each
-- variable, in the order of the code; `run_overrides` takes them in turn and stops at an error.
pub mod Laws
pub mod Settings
use eebus_ha_bridge.Prelude.{
  List, [], ◌∷◌, ◌++◌, not, ◌&&◌, none, some, if◌then◌else◌, Result, ok, err, ◌>>=◌, Bool, ℤ,
}
use eebus_ha_bridge.Ski.{Text, eq_text, is_empty, is_canonical_ski}
use eebus_ha_bridge.Config.{
  Config, EnvKey, ConfigError, Host, GrpcConfig, GrpcSecurityConfig, EebusConfig,
  CertificatesConfig, LoggingConfig, ExperimentalConfig, loopback_mode, tls_token_mode,
  parse_env_port, parse_env_bool, bind_empty, bad_security_mode, bad_trust_ski, eebus_grpc_port,
  eebus_grpc_bind, eebus_grpc_reflection, eebus_grpc_security_mode, eebus_grpc_tls_cert_file,
  eebus_grpc_tls_key_file, eebus_grpc_token_file, eebus_port, eebus_vendor, eebus_brand,
  eebus_model, eebus_serial, eebus_cert_file, eebus_key_file, eebus_cert_storage,
  eebus_debug_events, eebus_ship_log, eebus_ship_trace, eebus_exp_mgcp_provider,
  eebus_exp_vapd_provider, eebus_exp_vabd_provider, eebus_ohpcf_enabled, eebus_exp_trust_ski,
}

-- What is done with the value of a variable that is set.
abbrev pub Setter : Type 0
Setter = Text → Config → Result ConfigError Config

pub record Override : Type 0 where
  pub key : EnvKey
  pub set : Setter

abbrev pub set_text : EnvKey → (Text → Config → Config) → Override
set_text key f = record { key = key; set = λ v cfg. ok (f v cfg) }

abbrev pub set_bool : EnvKey → (Bool → Config → Config) → Override
set_bool key f = record {
  key = key;
  set = λ v cfg. parse_env_bool key v >>= λ enabled. ok (f enabled cfg);
}

abbrev pub set_port : EnvKey → (ℤ → Config → Config) → Override
set_port key f = record {
  key = key;
  set = λ v cfg. parse_env_port key v >>= λ port. ok (f port cfg);
}

unfoldable pub set_bind : Setter
set_bind v cfg =
    if is_empty v then err bind_empty else ok (record cfg { grpc = record cfg.grpc { bind = v } })

abbrev pub with_security : Config → GrpcSecurityConfig → Config
with_security cfg security = record cfg { grpc = record cfg.grpc { security = security } }

unfoldable pub set_security_mode : Setter
set_security_mode v cfg =
    if not (eq_text v loopback_mode) && not (eq_text v tls_token_mode)
    then err (bad_security_mode v)
    else ok (with_security cfg (record cfg.grpc.security { mode = v }))

unfoldable pub set_trust_ski : Setter
set_trust_ski v cfg =
    if not (is_canonical_ski v)
    then err bad_trust_ski
    else ok (record cfg { experimental = record cfg.experimental { trust_ski = v } })

abbrev pub grpc_overrides : List Override
grpc_overrides =
    set_port eebus_grpc_port (λ port cfg. record cfg { grpc = record cfg.grpc { port = port } })
    ∷ record { key = eebus_grpc_bind; set = set_bind }
    ∷ set_bool eebus_grpc_reflection
        (λ b cfg. record cfg { grpc = record cfg.grpc { enable_reflection = b } })
    ∷ record { key = eebus_grpc_security_mode; set = set_security_mode }
    ∷ set_text eebus_grpc_tls_cert_file
        (λ v cfg. with_security cfg (record cfg.grpc.security { tls_cert_file = v }))
    ∷ set_text eebus_grpc_tls_key_file
        (λ v cfg. with_security cfg (record cfg.grpc.security { tls_key_file = v }))
    ∷ set_text eebus_grpc_token_file
        (λ v cfg. with_security cfg (record cfg.grpc.security { token_file = v }))
    ∷ []

abbrev pub eebus_overrides : List Override
eebus_overrides =
    set_port eebus_port (λ port cfg. record cfg { eebus = record cfg.eebus { port = port } })
    ∷ set_text eebus_vendor (λ v cfg. record cfg { eebus = record cfg.eebus { vendor = v } })
    ∷ set_text eebus_brand (λ v cfg. record cfg { eebus = record cfg.eebus { brand = v } })
    ∷ set_text eebus_model (λ v cfg. record cfg { eebus = record cfg.eebus { model = v } })
    ∷ set_text eebus_serial (λ v cfg. record cfg { eebus = record cfg.eebus { serial = v } })
    ∷ set_text eebus_cert_file
        (λ v cfg. record cfg { certificates = record cfg.certificates { cert_file = v } })
    ∷ set_text eebus_key_file
        (λ v cfg. record cfg { certificates = record cfg.certificates { key_file = v } })
    ∷ set_text eebus_cert_storage
        (λ v cfg. record cfg { certificates = record cfg.certificates { storage_path = v } })
    ∷ []

abbrev pub feature_overrides : List Override
feature_overrides =
    set_bool eebus_debug_events
      (λ b cfg. record cfg { logging = record cfg.logging { debug_events = b } })
    ∷ set_bool eebus_ship_log
        (λ b cfg. record cfg { logging = record cfg.logging { ship_log = b } })
    ∷ set_bool eebus_ship_trace
        (λ b cfg. record cfg { logging = record cfg.logging { ship_trace = b } })
    ∷ set_bool eebus_exp_mgcp_provider
        (λ b cfg. record cfg { experimental = record cfg.experimental { mgcp_provider = b } })
    ∷ set_bool eebus_exp_vapd_provider
        (λ b cfg. record cfg { experimental = record cfg.experimental { vapd_provider = b } })
    ∷ set_bool eebus_exp_vabd_provider
        (λ b cfg. record cfg { experimental = record cfg.experimental { vabd_provider = b } })
    ∷ set_bool eebus_ohpcf_enabled (λ b cfg. record cfg { ohpcf = record { enabled = some b } })
    ∷ record { key = eebus_exp_trust_ski; set = set_trust_ski }
    ∷ []

unfoldable pub env_overrides : List Override
env_overrides = grpc_overrides ++ eebus_overrides ++ feature_overrides

-- A step that fails is named among those that were applied.
abbrev pub Loaded : Type 0
Loaded = Result (List EnvKey × ConfigError) (Config × List EnvKey)

abbrev pub note_key : List EnvKey → Result ConfigError Config → Loaded
note_key applied (ok cfg) = ok (cfg, applied)
note_key applied (err e) = err (applied, e)

unfoldable pub run_override : Host → Override → Config → List EnvKey → Loaded
run_override host o cfg applied = elim (host.lookup_env o.key) [
  | none ↦ ok (cfg, applied)
  | some v ↦ note_key (applied ++ o.key ∷ []) (o.set v cfg)
]

unfoldable pub run_overrides : Host → List Override → Config → List EnvKey → Loaded
run_overrides host [] cfg applied = ok (cfg, applied)
run_overrides host (o ∷ l) cfg applied =
    run_override host o cfg applied >>= λ s. run_overrides host l s.0 s.1

unfoldable pub apply_env_overrides : Host → Config → Loaded
apply_env_overrides host cfg = run_overrides host env_overrides cfg []
