-- ===== src/Config/Tests.antt =====
-- Runs of eebus-bridge/internal/config/config.go on a small machine.
use eebus_ha_bridge.Prelude.{
  Option, ok, ◌↔◌, ◌≢◌, inl, arith, ◌≡◌, refl, true, false, some, none, pos, negsuc, ℕ_discrete, [],
  ◌∷◌, map,
}
use eebus_ha_bridge.Ski.{Text, codes, eq_text, Text-discrete, is_hex, to_upper}
use eebus_ha_bridge.Config.Numbers.{atoi, parse_bool, is_digit, digits, unsigned, in_range, one_of}
use eebus_ha_bridge.Config.Address.{
  cut, all_digits, value_of, octet, octets, hex_digit, hex_prefix, expand, groups, after_prefix,
  parse_ip, is_loopback, equal_fold, is_loopback_bind,
}
use eebus_ha_bridge.Registry.Catalog.{decimal}
use eebus_ha_bridge.Config.{
  Config, Host, eebus_port, eebus_grpc_bind, default_config, apply_post_load_defaults,
  parse_env_port, validate, validate_ports, validate_port, validate_certificates,
  validate_grpc_security, validate_provider_config, validate_experimental_config,
}
use eebus_ha_bridge.Config.Overrides.{
  apply_env_overrides, run_overrides, run_override, env_overrides, set_bind,
}
use eebus_ha_bridge.Config.Overrides.Settings.{IsSettled}
use eebus_ha_bridge.Config.Validation.{IsValid, validate-IsValid}
use eebus_ha_bridge.Config.Loading.{load_from_file, validated, load_from_file-IsValid}
use eebus_ha_bridge.Config.Ports.{parse_env_port-decimal}

loopbacks :
    map is_loopback_bind (
      codes "127.0.0.1"
      ∷ codes "::1"
      ∷ codes "LocalHost"
      ∷ codes "0:0::1"
      ∷ codes "::ffff:127.0.0.2"
      ∷ codes "::ffff:7f00:1"
      ∷ codes "0:0:0:0:0:0:0:1"
      ∷ [])
    ≡ true ∷ true ∷ true ∷ true ∷ true ∷ true ∷ true ∷ []
unfolding is_loopback_bind equal_fold is_loopback parse_ip after_prefix groups expand hex_prefix
    hex_digit octets octet value_of all_digits cut eq_text is_hex to_upper is_digit Text-discrete
    ℕ_discrete
loopbacks = refl

others :
    map is_loopback_bind (
      codes "0.0.0.0"
      ∷ codes "::"
      ∷ codes "127.0.0.01"
      ∷ codes "::1%lo"
      ∷ codes ""
      ∷ codes "1::2::3"
      ∷ codes "0:0:0:0:0:0:0:0:1"
      ∷ codes "127.0.0"
      ∷ [])
    ≡ false ∷ false ∷ false ∷ false ∷ false ∷ false ∷ false ∷ false ∷ []
unfolding is_loopback_bind equal_fold is_loopback parse_ip after_prefix groups expand hex_prefix
    hex_digit octets octet value_of all_digits cut eq_text is_hex to_upper is_digit Text-discrete
    ℕ_discrete
others = refl

numbers :
    map atoi (
      codes "50051"
      ∷ codes "-1"
      ∷ codes "+7"
      ∷ codes ""
      ∷ codes "-"
      ∷ codes "1_0"
      ∷ codes "9223372036854775808"
      ∷ [])
    ≡ some (pos 50051) ∷ some (negsuc 0) ∷ some (pos 7) ∷ none ∷ none ∷ none ∷ none ∷ []
unfolding atoi in_range unsigned digits is_digit
numbers = refl

booleans :
    map parse_bool (codes "True" ∷ codes "f" ∷ codes "yes" ∷ [])
    ≡ some true ∷ some false ∷ none ∷ []
unfolding parse_bool one_of eq_text Text-discrete ℕ_discrete
booleans = refl

-- A machine where one variable is set, and every file is there.
abbrev machine : Host
machine = record {
  lookup_env = λ k. elim k [ eebus_grpc_bind ↦ some (codes "localhost") | _ ↦ none ];
  read_file = λ _. some (codes "eebus:");
  file_exists = λ _ _. true;
  loads_key_pair = λ _ _. true;
}

-- The decoder on a file that sets nothing.
abbrev decode_nothing : Text → Config → Option Config
decode_nothing _ cfg = some cfg

abbrev loaded_config : Config
loaded_config = record default_config {
  grpc = record default_config.grpc { bind = codes "localhost" };
  certificates = record default_config.certificates { auto_generate = some true };
}

machine_loads : load_from_file machine decode_nothing [] ≡ ok loaded_config
unfolding load_from_file validated validate validate_ports validate_port validate_certificates
    validate_grpc_security validate_provider_config validate_experimental_config apply_env_overrides
    run_overrides run_override env_overrides set_bind apply_post_load_defaults default_config
    is_loopback_bind equal_fold eq_text to_upper Text-discrete ℕ_discrete
machine_loads = refl

machine_applies :
    apply_env_overrides machine default_config
    ≡ ok (
      record default_config { grpc = record default_config.grpc { bind = codes "localhost" } },
      eebus_grpc_bind ∷ [],
    )
unfolding apply_env_overrides run_overrides run_override env_overrides set_bind default_config
machine_applies = refl

default_config-IsSettled : IsSettled default_config
unfolding default_config
default_config-IsSettled = record {
  grpc_port_in_range = (omega arith, omega arith);
  bind_set = λ e. cc;
  mode_known = inl refl;
  eebus_port_in_range = (omega arith, omega arith);
  trust_ski_canonical = inl refl;
}

load_from_file-IsValid_example :
    IsValid machine loaded_config × (loaded_config.certificates.auto_generate ≢ none)
load_from_file-IsValid_example = load_from_file-IsValid machine decode_nothing [] machine_loads

validate-IsValid_example : (validate machine loaded_config ≡ ok tt) ↔ IsValid machine loaded_config
validate-IsValid_example = validate-IsValid machine loaded_config

parse_env_port-decimal_example : parse_env_port eebus_port (decimal 4712) ≡ ok (pos 4712)
parse_env_port-decimal_example = parse_env_port-decimal eebus_port 4712 (omega arith) (omega arith)
