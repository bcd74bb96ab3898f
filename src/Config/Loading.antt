-- ===== src/Config/Loading.antt =====
-- LoadFromFile of eebus-bridge/internal/config/config.go. `decode` is the YAML decoder of
-- gopkg.in/yaml.v3 with KnownFields: it writes the keys of the file over a configuration.
use eebus_ha_bridge.Prelude.{
  none, some, Result, ok, err, ◌≡◌, refl, Option, List, ◌≢◌, ap, if_both, subst, arith,
  if◌then◌else◌,
}
use eebus_ha_bridge.Store.{or_zero}
use eebus_ha_bridge.Ski.{Text, is_empty}
use eebus_ha_bridge.Config.{
  Config, ConfigError, EnvKey, Host, default_config, apply_post_load_defaults, validate,
  reading_config_file, parsing_config_file, applying_environment_overrides,
  validating_after_overrides, eebus_grpc_bind, eebus_grpc_security_mode,
}
use eebus_ha_bridge.Config.Overrides.{Loaded, env_overrides, apply_env_overrides}
use eebus_ha_bridge.Config.Overrides.Settings.{apply_env_overrides-grpc}
use eebus_ha_bridge.Config.Validation.{IsValid, validate-IsValid}

-- What is done once the variables are read.
unfoldable pub validated : Host → Config → List EnvKey → Result ConfigError Config
validated host cfg env_overrides = elim (validate host (apply_post_load_defaults cfg)) [
  | ok _ ↦ ok (apply_post_load_defaults cfg)
  | err e ↦
      if is_empty env_overrides then err e else err (validating_after_overrides env_overrides e)
]

unfoldable pub load_from_file :
    Host → (Text → Config → Option Config) → Text → Result ConfigError Config
load_from_file host decode path = elim (host.read_file path) [
  | none ↦ err reading_config_file
  | some text ↦ elim (decode text default_config) [
    | none ↦ err parsing_config_file
    | some cfg ↦ elim (apply_env_overrides host cfg) [
      | err e ↦ err (applying_environment_overrides e.1)
      | ok s ↦ validated host s.0 s.1
    ]
  ]
]

validated-ok :
    (host : Host) (cfg : Config) (applied : List EnvKey) {cfg' : Config}
    → validated host cfg applied ≡ ok cfg'
    → (validate host (apply_post_load_defaults cfg) ≡ ok tt) × (apply_post_load_defaults cfg ≡ cfg')
unfolding validated apply_post_load_defaults
validated-ok host cfg applied {cfg'} h = cases _ refl
  where
    cases :
        (r : Result ConfigError Unit)
        → validate host (apply_post_load_defaults cfg) ≡ r
        → (validate host (apply_post_load_defaults cfg) ≡ ok tt)
          × (apply_post_load_defaults cfg ≡ cfg')
    cases (ok _) e =
        let h' : ◌≡◌ {A = Result ConfigError Config} (ok (apply_post_load_defaults cfg)) (ok cfg') =
          rw (← h, validated, e) refl in
        (e, cc)
    cases (err x) e =
        let h' : (if is_empty applied then err x else err (validating_after_overrides applied x))
            ≡ ok cfg' =
          rw (← h, validated, e) refl in
        absurd (
          if_both (λ (r : Result ConfigError Config). r ≡ ok cfg' → ⊥) (is_empty applied) (λ p. cc)
            (λ p. cc) h')

-- How a configuration that is loaded comes about.
pub record IsLoaded (host : Host) (decode : Text → Config → Option Config) (path : Text)
    (cfg : Config) : Type 0 where
  pub text : Text
  pub of_file : Config
  pub overridden : Config × List EnvKey
  pub read : host.read_file path ≡ some text
  pub decoded : decode text default_config ≡ some of_file
  pub applied : apply_env_overrides host of_file ≡ ok overridden
  pub completed : apply_post_load_defaults overridden.0 ≡ cfg
  pub accepted : validate host (apply_post_load_defaults overridden.0) ≡ ok tt

load_from_file-steps :
    (host : Host) (decode : Text → Config → Option Config) (path : Text) {cfg : Config}
    → load_from_file host decode path ≡ ok cfg
    → IsLoaded host decode path cfg
unfolding load_from_file validated
load_from_file-steps host decode path {cfg} h = reading _ refl
  where
    overriding :
        (t : Text) (c : Config)
        → host.read_file path ≡ some t
        → decode t default_config ≡ some c
        → (r : Loaded) → apply_env_overrides host c ≡ r
        → IsLoaded host decode path cfg
    overriding t c e d (err x) a =
        let h' : err (applying_environment_overrides x.1) ≡ ok cfg =
          rw (← h, load_from_file, e, d, a) refl in
        cc
    overriding t c e d (ok s) a =
        let h' : validated host s.0 s.1 ≡ ok cfg = rw (← h, load_from_file, e, d, a) refl in
        let (v, same) = validated-ok host s.0 s.1 h' in
        record {
          text = t;
          of_file = c;
          overridden = s;
          read = e;
          decoded = d;
          applied = a;
          completed = same;
          accepted = v;
        }

    decoding :
        (t : Text)
        → host.read_file path ≡ some t
        → (u : Option Config) → decode t default_config ≡ u
        → IsLoaded host decode path cfg
    decoding t e none d =
        let h' : err parsing_config_file ≡ ok cfg = rw (← h, load_from_file, e, d) refl in cc
    decoding t e (some c) d = overriding t c e d _ refl

    reading : (u : Option Text) → host.read_file path ≡ u → IsLoaded host decode path cfg
    reading none e =
        let h' : err reading_config_file ≡ ok cfg = rw (← h, load_from_file, e) refl in cc
    reading (some t) e = decoding t e _ refl

apply_post_load_defaults-lem :
    (cfg : Config)
    → ((apply_post_load_defaults cfg).certificates.auto_generate ≢ none)
      × ((apply_post_load_defaults cfg).grpc ≡ cfg.grpc)
unfolding apply_post_load_defaults
apply_post_load_defaults-lem cfg = ground arith

-- A configuration that LoadFromFile returns is valid, whatever the file and the environment hold,
-- and its choice of generated certificates is set.
pub load_from_file-IsValid :
    (host : Host) (decode : Text → Config → Option Config) (path : Text) {cfg : Config}
    → load_from_file host decode path ≡ ok cfg
    → IsValid host cfg × (cfg.certificates.auto_generate ≢ none)
load_from_file-IsValid host decode path {cfg} h =
    let loaded = load_from_file-steps host decode path h in
    subst (λ c. IsValid host c × (c.certificates.auto_generate ≢ none)) {y = cfg} loaded.completed
      (
        (validate-IsValid host _).0 loaded.accepted,
        (apply_post_load_defaults-lem loaded.overridden.0).0,
      )

-- A configuration that LoadFromFile returns binds to the address and has the security mode of the
-- environment where its variables are set, and of the decoded file otherwise.
load_from_file-grpc :
    (host : Host) (decode : Text → Config → Option Config) (path : Text) {cfg : Config}
    → load_from_file host decode path ≡ ok cfg
    → (text : Text) × (of_file : Config) × (host.read_file path ≡ some text)
      × (decode text default_config ≡ some of_file)
      × (cfg.grpc.bind ≡ or_zero of_file.grpc.bind (host.lookup_env eebus_grpc_bind))
      × (cfg.grpc.security.mode
          ≡ or_zero of_file.grpc.security.mode (host.lookup_env eebus_grpc_security_mode))
load_from_file-grpc host decode path {cfg} h =
    let loaded = load_from_file-steps host decode path h in
    let same = (apply_post_load_defaults-lem loaded.overridden.0).1 in
    let (bind, mode) = apply_env_overrides-grpc host loaded.of_file loaded.applied in
    let grpc = ap (λ (c : Config). c.grpc) loaded.completed in
    (
      loaded.text,
      loaded.of_file,
      loaded.read,
      loaded.decoded,
      cc (bind, same, grpc),
      cc (mode, same, grpc),
    )
