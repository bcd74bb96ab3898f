-- ===== src/Config/Overrides/Settings.antt =====
-- The settings that decide who reaches the bridge, after the environment's variables are read.
use eebus_ha_bridge.Prelude.{
  not-false, List, [], ◌∷◌, ◌++◌, none, some, ok, err, ◌>>◌, Bool, ◌≡◌, ◌≢◌, refl, Option, sym, ap,
  ℤ, ℕ, zero, suc, pos, ◌≤ℤ◌, false, true, not, ◌&&◌, ◌⊎◌, inl, inr, arith, subst, >>=-eq-ok,
  >>-eq-ok, guard-eq-ok, if_err-eq-ok,
}
use eebus_ha_bridge.Store.{or_zero}
use eebus_ha_bridge.Ski.{Text, eq_text, is_canonical_ski}
use eebus_ha_bridge.Config.Numbers.{atoi}
use eebus_ha_bridge.Config.{
  Config, EnvKey, Host, loopback_mode, tls_token_mode, eebus_grpc_bind, eebus_grpc_security_mode,
  eebus_grpc_tls_cert_file, eebus_grpc_tls_key_file, eebus_grpc_token_file, eebus_vendor,
  eebus_brand, eebus_model, eebus_serial, eebus_cert_file, eebus_key_file, eebus_cert_storage,
  eebus_exp_trust_ski, parse_env_port, parse_env_bool, validate_port, env, PortName, GrpcConfig,
  not_an_integer_port,
}
use eebus_ha_bridge.Config.Overrides.{
  Override, env_overrides, apply_env_overrides, set_bind, set_text, set_bool, set_port,
  grpc_overrides, eebus_overrides, feature_overrides, set_security_mode, set_trust_ski,
  with_security,
}
use eebus_ha_bridge.Config.Overrides.Laws.{
  Keeps, AllKeep, done, ◌▸◌, run_overrides-keeps, run_overrides-setting, run_overrides-set_keys,
  set_keys,
}

abbrev pub IsPort : ℤ → Type 0
IsPort p = (pos 1 ≤ℤ p) × (p ≤ℤ pos 65535)

pub record Settled (grpc_port : ℤ) (bind mode : Text) (eebus_port : ℤ) (trust_ski : Text)
    : Type 0 where
  pub grpc_port_in_range : IsPort grpc_port
  pub bind_set : bind ≢ []
  pub mode_known : (mode ≡ loopback_mode) ⊎ (mode ≡ tls_token_mode)
  pub eebus_port_in_range : IsPort eebus_port
  pub trust_ski_canonical : (trust_ski ≡ []) ⊎ (is_canonical_ski trust_ski ≡ true)

abbrev pub IsSettled : Config → Type 0
IsSettled cfg =
    Settled cfg.grpc.port cfg.grpc.bind cfg.grpc.security.mode cfg.eebus.port
      cfg.experimental.trust_ski

pub eq_text-true : (a b : Text) → eq_text a b ≡ true → a ≡ b
unfolding eq_text
eq_text-true a b h = ground arith

pub validate_port-IsPort : (name : PortName) (p : ℤ) → validate_port name p ≡ ok tt → IsPort p
unfolding validate_port
validate_port-IsPort name p h = ground (arith, guard-eq-ok _ _ h)

pub parse_env_port-IsPort :
    (key : EnvKey) (v : Text) {p : ℤ} → parse_env_port key v ≡ ok p → IsPort p
unfolding parse_env_port
parse_env_port-IsPort key v {p} h = port_in_range (atoi v) refl
  where
    port_in_range : (u : Option ℤ) → atoi v ≡ u → IsPort p
    port_in_range none e =
        let h' : err (not_an_integer_port key) ≡ ok p = rw (← h, e, parse_env_port) refl in cc
    port_in_range (some n) e =
        let h' : (validate_port (env key) n >> ok n) ≡ ok p = rw (← h, e, parse_env_port) refl in
        let (valid, same) = >>-eq-ok (validate_port (env key) n) (ok n) h' in
        subst (λ (x : ℤ). IsPort x) {x = n} {y = p} (cc) (validate_port-IsPort (env key) n valid)

module _ (P : Config → Type 0) where
  set_text-Keeps :
      (key : EnvKey) (f : Text → Config → Config)
      → ((v : Text) (cfg : Config) → P cfg → P (f v cfg))
      → Keeps P (set_text key f)
  set_text-Keeps key f keep v cfg cfg' p h = subst P {x = f v cfg} {y = cfg'} (cc) (keep v cfg p)

  set_bool-Keeps :
      (key : EnvKey) (f : Bool → Config → Config)
      → ((b : Bool) (cfg : Config) → P cfg → P (f b cfg))
      → Keeps P (set_bool key f)
  set_bool-Keeps key f keep v cfg cfg' p h =
      let (b, _, e) = >>=-eq-ok (parse_env_bool key v) _ h in
      subst P {x = f b cfg} {y = cfg'} (cc) (keep b cfg p)

  set_port-Keeps :
      (key : EnvKey) (f : ℤ → Config → Config)
      → ((n : ℤ) (cfg : Config) → IsPort n → P cfg → P (f n cfg))
      → Keeps P (set_port key f)
  set_port-Keeps key f keep v cfg cfg' p h =
      let (b, n, e) = >>=-eq-ok (parse_env_port key v) _ h in
      subst P {x = f b cfg} {y = cfg'} (cc) (keep b cfg (parse_env_port-IsPort key v n) p)

with_grpc_port :
    {p q : ℤ} {bind mode ski : Text} {n : ℤ}
    → IsPort n
    → Settled p bind mode q ski
    → Settled n bind mode q ski
with_grpc_port r s = record {
  grpc_port_in_range = r;
  bind_set = s.bind_set;
  mode_known = s.mode_known;
  eebus_port_in_range = s.eebus_port_in_range;
  trust_ski_canonical = s.trust_ski_canonical;
}

with_eebus_port :
    {p q : ℤ} {bind mode ski : Text} {n : ℤ}
    → IsPort n
    → Settled p bind mode q ski
    → Settled p bind mode n ski
with_eebus_port r s = record {
  grpc_port_in_range = s.grpc_port_in_range;
  bind_set = s.bind_set;
  mode_known = s.mode_known;
  eebus_port_in_range = r;
  trust_ski_canonical = s.trust_ski_canonical;
}

set_bind-ok :
    (v : Text) (cfg cfg' : Config)
    → set_bind v cfg ≡ ok cfg'
    → (v ≢ []) × (record cfg { grpc = record cfg.grpc { bind = v } } ≡ cfg')
unfolding set_bind
set_bind-ok [] cfg cfg' h = (λ e. cc, cc)
set_bind-ok (c ∷ v) cfg cfg' h = (λ e. cc, cc)

set_bind-Keeps : Keeps IsSettled (record { key = eebus_grpc_bind; set = set_bind })
set_bind-Keeps v cfg cfg' s h =
    let (full, same) = set_bind-ok v cfg cfg' h in
    subst IsSettled {x = record cfg { grpc = record cfg.grpc { bind = v } }} {y = cfg'} same
      (record {
        grpc_port_in_range = s.grpc_port_in_range;
        bind_set = full;
        mode_known = s.mode_known;
        eebus_port_in_range = s.eebus_port_in_range;
        trust_ski_canonical = s.trust_ski_canonical;
      })

one_of_two : (a b : Bool) → (not a && not b) ≡ false → (a ≡ true) ⊎ (b ≡ true)
one_of_two true b h = inl refl
one_of_two false true h = inr refl
one_of_two false false h = cc

set_security_mode-ok :
    (v : Text) (cfg cfg' : Config)
    → set_security_mode v cfg ≡ ok cfg'
    → ((v ≡ loopback_mode) ⊎ (v ≡ tls_token_mode))
      × (with_security cfg (record cfg.grpc.security { mode = v }) ≡ cfg')
unfolding set_security_mode
set_security_mode-ok v cfg cfg' h =
    let (known, same) = if_err-eq-ok _ _ h in
    (
      elim (one_of_two _ _ known) [
        | inl e ↦ inl (eq_text-true _ _ e)
        | inr e ↦ inr (eq_text-true _ _ e)
      ],
      cc,
    )

set_security_mode-Keeps :
    Keeps IsSettled (record { key = eebus_grpc_security_mode; set = set_security_mode })
set_security_mode-Keeps v cfg cfg' s h =
    let (known, same) = set_security_mode-ok v cfg cfg' h in
    subst IsSettled {x = with_security cfg (record cfg.grpc.security { mode = v })} {y = cfg'} same
      (record {
        grpc_port_in_range = s.grpc_port_in_range;
        bind_set = s.bind_set;
        mode_known = known;
        eebus_port_in_range = s.eebus_port_in_range;
        trust_ski_canonical = s.trust_ski_canonical;
      })

set_trust_ski-ok :
    (v : Text) (cfg cfg' : Config)
    → set_trust_ski v cfg ≡ ok cfg'
    → (is_canonical_ski v ≡ true)
      × (record cfg { experimental = record cfg.experimental { trust_ski = v } } ≡ cfg')
unfolding set_trust_ski
set_trust_ski-ok v cfg cfg' h = let (known, same) = if_err-eq-ok _ _ h in (not-false _ known, cc)

set_trust_ski-Keeps : Keeps IsSettled (record { key = eebus_exp_trust_ski; set = set_trust_ski })
set_trust_ski-Keeps v cfg cfg' s h =
    let (canonical, same) = set_trust_ski-ok v cfg cfg' h in
    subst IsSettled {x = record cfg { experimental = record cfg.experimental { trust_ski = v } }}
      {y = cfg'} same
      (record {
        grpc_port_in_range = s.grpc_port_in_range;
        bind_set = s.bind_set;
        mode_known = s.mode_known;
        eebus_port_in_range = s.eebus_port_in_range;
        trust_ski_canonical = inr canonical;
      })

IsSettled-keeps : AllKeep IsSettled env_overrides
unfolding env_overrides
IsSettled-keeps =
    set_port-Keeps IsSettled _ _ (λ n cfg r s. with_grpc_port r s)
    ▸ set_bind-Keeps
    ▸ set_bool-Keeps IsSettled _ _ (λ b cfg s. s)
    ▸ set_security_mode-Keeps
    ▸ set_text-Keeps IsSettled eebus_grpc_tls_cert_file _ (λ v cfg s. s)
    ▸ set_text-Keeps IsSettled eebus_grpc_tls_key_file _ (λ v cfg s. s)
    ▸ set_text-Keeps IsSettled eebus_grpc_token_file _ (λ v cfg s. s)
    ▸ set_port-Keeps IsSettled _ _ (λ n cfg r s. with_eebus_port r s)
    ▸ set_text-Keeps IsSettled eebus_vendor _ (λ v cfg s. s)
    ▸ set_text-Keeps IsSettled eebus_brand _ (λ v cfg s. s)
    ▸ set_text-Keeps IsSettled eebus_model _ (λ v cfg s. s)
    ▸ set_text-Keeps IsSettled eebus_serial _ (λ v cfg s. s)
    ▸ set_text-Keeps IsSettled eebus_cert_file _ (λ v cfg s. s)
    ▸ set_text-Keeps IsSettled eebus_key_file _ (λ v cfg s. s)
    ▸ set_text-Keeps IsSettled eebus_cert_storage _ (λ v cfg s. s)
    ▸ set_bool-Keeps IsSettled _ _ (λ b cfg s. s)
    ▸ set_bool-Keeps IsSettled _ _ (λ b cfg s. s)
    ▸ set_bool-Keeps IsSettled _ _ (λ b cfg s. s)
    ▸ set_bool-Keeps IsSettled _ _ (λ b cfg s. s)
    ▸ set_bool-Keeps IsSettled _ _ (λ b cfg s. s)
    ▸ set_bool-Keeps IsSettled _ _ (λ b cfg s. s)
    ▸ set_bool-Keeps IsSettled _ _ (λ b cfg s. s)
    ▸ set_trust_ski-Keeps
    ▸ done

-- Where the ports are in range, the bind address is not empty, the security mode is known and the
-- trusted SKI is empty or canonical, they still are after the variables of the environment are
-- applied without an error.
apply_env_overrides-IsSettled :
    (host : Host) (cfg : Config) {s : Config × List EnvKey}
    → IsSettled cfg
    → apply_env_overrides host cfg ≡ ok s
    → IsSettled s.0
unfolding apply_env_overrides
apply_env_overrides-IsSettled host cfg settled h =
    run_overrides-keeps IsSettled host env_overrides IsSettled-keeps cfg [] settled h

-- The names that applyEnvOverrides reports, where it has no error, are those of the variables that
-- are set, in the order of the code.
apply_env_overrides-set_keys :
    (host : Host) (cfg : Config) {s : Config × List EnvKey}
    → apply_env_overrides host cfg ≡ ok s
    → s.1 ≡ set_keys host env_overrides
unfolding apply_env_overrides
apply_env_overrides-set_keys host cfg h = run_overrides-set_keys host env_overrides cfg [] h

set_trust_ski-Keeps_grpc :
    (Q : GrpcConfig → Type 0)
    → Keeps (λ c. Q c.grpc) (record { key = eebus_exp_trust_ski; set = set_trust_ski })
set_trust_ski-Keeps_grpc Q v cfg cfg' q h =
    let (known, same) = set_trust_ski-ok v cfg cfg' h in
    subst (λ (c : Config). Q c.grpc)
      {x = record cfg { experimental = record cfg.experimental { trust_ski = v } }} {y = cfg'} same
      q

-- No later variable writes the settings of gRPC.
others-keep_grpc :
    (Q : GrpcConfig → Type 0) → AllKeep (λ c. Q c.grpc) (eebus_overrides ++ feature_overrides)
others-keep_grpc Q =
    let P = λ (c : Config). Q c.grpc in
    set_port-Keeps P _ _ (λ n cfg r s. s)
    ▸ set_text-Keeps P eebus_vendor _ (λ v cfg s. s)
    ▸ set_text-Keeps P eebus_brand _ (λ v cfg s. s)
    ▸ set_text-Keeps P eebus_model _ (λ v cfg s. s)
    ▸ set_text-Keeps P eebus_serial _ (λ v cfg s. s)
    ▸ set_text-Keeps P eebus_cert_file _ (λ v cfg s. s)
    ▸ set_text-Keeps P eebus_key_file _ (λ v cfg s. s)
    ▸ set_text-Keeps P eebus_cert_storage _ (λ v cfg s. s)
    ▸ set_bool-Keeps P _ _ (λ b cfg s. s)
    ▸ set_bool-Keeps P _ _ (λ b cfg s. s)
    ▸ set_bool-Keeps P _ _ (λ b cfg s. s)
    ▸ set_bool-Keeps P _ _ (λ b cfg s. s)
    ▸ set_bool-Keeps P _ _ (λ b cfg s. s)
    ▸ set_bool-Keeps P _ _ (λ b cfg s. s)
    ▸ set_bool-Keeps P _ _ (λ b cfg s. s)
    ▸ set_trust_ski-Keeps_grpc Q
    ▸ done

set_bind-Keeps_mode :
    (a : Text)
    → Keeps (λ c. c.grpc.security.mode ≡ a) (record { key = eebus_grpc_bind; set = set_bind })
set_bind-Keeps_mode a v cfg cfg' p h =
    let (full, same) = set_bind-ok v cfg cfg' h in
    subst (λ (c : Config). c.grpc.security.mode ≡ a)
      {x = record cfg { grpc = record cfg.grpc { bind = v } }} {y = cfg'} same p

set_security_mode-Keeps_bind :
    (a : Text)
    → Keeps
        (λ c. c.grpc.bind ≡ a)
        (record { key = eebus_grpc_security_mode; set = set_security_mode })
set_security_mode-Keeps_bind a v cfg cfg' p h =
    let (known, same) = set_security_mode-ok v cfg cfg' h in
    subst (λ (c : Config). c.grpc.bind ≡ a)
      {x = with_security cfg (record cfg.grpc.security { mode = v })} {y = cfg'} same p

-- bind and mode
pub apply_env_overrides-grpc :
    (host : Host) (cfg : Config) {s : Config × List EnvKey}
    → apply_env_overrides host cfg ≡ ok s
    → (s.0.grpc.bind ≡ or_zero cfg.grpc.bind (host.lookup_env eebus_grpc_bind))
      × (s.0.grpc.security.mode
          ≡ or_zero cfg.grpc.security.mode (host.lookup_env eebus_grpc_security_mode))
unfolding apply_env_overrides env_overrides
apply_env_overrides-grpc host cfg h = (
  run_overrides-setting (λ c. c.grpc.bind) host (take 1 grpc_overrides)
      (record { key = eebus_grpc_bind; set = set_bind }) (drop_overrides 2)
      (λ a. set_port-Keeps (λ c. c.grpc.bind ≡ a) _ _ (λ n c r s. s) ▸ done)
      (λ a.
        let P = λ (c : Config). c.grpc.bind ≡ a in
        set_bool-Keeps P _ _ (λ b cfg s. s)
        ▸ set_security_mode-Keeps_bind a
        ▸ set_text-Keeps P eebus_grpc_tls_cert_file _ (λ v cfg s. s)
        ▸ set_text-Keeps P eebus_grpc_tls_key_file _ (λ v cfg s. s)
        ▸ set_text-Keeps P eebus_grpc_token_file _ (λ v cfg s. s)
        ▸ others-keep_grpc (λ g. g.bind ≡ a))
      (λ v c c' e.
        let (full, same) = set_bind-ok v c c' e in sym (ap (λ (x : Config). x.grpc.bind) same))
      cfg [] h,
  run_overrides-setting (λ c. c.grpc.security.mode) host (take 3 grpc_overrides)
      (record { key = eebus_grpc_security_mode; set = set_security_mode }) (drop_overrides 4)
      (λ a.
        let P = λ (c : Config). c.grpc.security.mode ≡ a in
        set_port-Keeps P _ _ (λ n c r s. s)
        ▸ set_bind-Keeps_mode a
        ▸ set_bool-Keeps P _ _ (λ b cfg s. s)
        ▸ done)
      (λ a.
        let P = λ (c : Config). c.grpc.security.mode ≡ a in
        set_text-Keeps P eebus_grpc_tls_cert_file _ (λ v cfg s. s)
        ▸ set_text-Keeps P eebus_grpc_tls_key_file _ (λ v cfg s. s)
        ▸ set_text-Keeps P eebus_grpc_token_file _ (λ v cfg s. s)
        ▸ others-keep_grpc (λ g. g.security.mode ≡ a))
      (λ v c c' e.
        let (full, same) = set_security_mode-ok v c c' e in
        sym (ap (λ (x : Config). x.grpc.security.mode) same))
      cfg [] h,
)
  where
    drop_list : ℕ → List Override → List Override
    drop_list zero l = l
    drop_list (suc n) [] = []
    drop_list (suc n) (o ∷ l) = drop_list n l

    drop_overrides : ℕ → List Override
    drop_overrides n = drop_list n env_overrides

    take : ℕ → List Override → List Override
    take zero l = []
    take (suc n) [] = []
    take (suc n) (o ∷ l) = o ∷ take n l
