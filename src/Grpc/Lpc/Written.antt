-- ===== src/Grpc/Lpc/Written.antt =====
-- What a request must be for a limit to reach a device.
use eebus_ha_bridge.Prelude.{
  sym, subst, ℕ, ℤ, pos, negsuc, true, not, Option, none, some, ◌≡◌, refl, arith, ok, guard,
  guard-eq-ok, if_err-eq-ok, if_split, ltb_ℤ,
}
use eebus_ha_bridge.Ski.{Text, normalize_ski, valid_ski, is_empty}
use eebus_ha_bridge.Time.{Time, Duration}
use eebus_ha_bridge.Float.{Float}
use eebus_ha_bridge.Registry.State.{Capability, lpc, failsafe}
use eebus_ha_bridge.Grpc.Status.{
  status, invalid_argument, ski_malformed, ski_required_for_write, require_device_request,
  require_write_ski,
}
use eebus_ha_bridge.Grpc.Validate.{non_negative}
use eebus_ha_bridge.Grpc.Push.Bounds.{IsNonNegative, non_negative-IsNonNegative}
use eebus_ha_bridge.Grpc.Handler.{
  Handler, ServiceState, send, initialized, resolve_compatible_entity,
}
use eebus_ha_bridge.Grpc.Handler.Sent.{
  Sends, IsResolved, found_by, checked-Sends, continue-Sends, send-Sends, nothing-Sends,
  resolve_compatible_entity-Sends, resolve_compatible_entity-found,
}
use eebus_ha_bridge.Grpc.Lpc.Seconds.{IsSeconds, duration_of-IsSeconds}
use eebus_ha_bridge.Grpc.Lpc.{
  LpcController, LpcCommand, WriteLoadLimitRequest, WriteFailsafeLimitRequest, write_limit,
  write_failsafe_power, write_failsafe_duration, non_negative_seconds, duration_of, resolver_of,
  scenario_of, resolve_capability_entity, write_consumption_limit, write_failsafe_limit,
  write_duration,
}

pub require_write_ski-valid :
    (ski : Text) → require_write_ski ski ≡ ok tt → valid_ski (normalize_ski ski) ≡ true
unfolding require_write_ski
require_write_ski-valid ski h =
    let (_, h₁) =
      if_err-eq-ok (is_empty (normalize_ski ski)) (status invalid_argument ski_required_for_write)
        {r = guard (not (valid_ski (normalize_ski ski))) (status invalid_argument ski_malformed)}
        h in
    let h₂ =
      guard-eq-ok (not (valid_ski (normalize_ski ski))) (status invalid_argument ski_malformed)
        h₁ in
    ground arith

non_negative_seconds-eq-ok : (n : ℤ) → non_negative_seconds n ≡ ok tt → (m : ℕ) × (n ≡ pos m)
unfolding non_negative_seconds
non_negative_seconds-eq-ok (pos m) h = (m, refl)
non_negative_seconds-eq-ok (negsuc m) h = absurd (ground arith)

pub require_device_request-eq-ok :
    {R : Type 0} (o : Option R) {r : R} → require_device_request o ≡ ok r → o ≡ some r
unfolding require_device_request
require_device_request-eq-ok none h = cc
require_device_request-eq-ok (some r) h = cc

pub initialized-eq-ok : {U : Type 0} (o : Option U) {u : U} → initialized o ≡ ok u → o ≡ some u
initialized-eq-ok none h = cc
initialized-eq-ok (some u) h = cc

-- What is checked before a limit is written to an entity.
pub record IsChecked (controller : Option LpcController) (scenario : ℕ) (ski : Text) (value : Float)
    (seconds : ℤ) (entity : ℕ) : Type 0 where
  pub use_case : LpcController
  pub initialized : controller ≡ some use_case
  pub device : valid_ski (normalize_ski ski) ≡ true
  pub compatible : (use_case.compatible_entity_for_scenario ski scenario).entity ≡ some entity
  pub power : IsNonNegative value
  pub seconds_count : (m : ℕ) × (seconds ≡ pos m)

resolved-compatible :
    (c : LpcController) (controller : Option LpcController) (capability : Capability) (ski : Text)
    (e : ℕ)
    → controller ≡ some c
    → IsResolved (resolver_of controller capability) ski e
    → (c.compatible_entity_for_scenario ski (scenario_of capability)).entity ≡ some e
resolved-compatible c none capability ski e h i = cc
resolved-compatible c (some d) capability ski e h i =
    let p : (d.compatible_entity_for_scenario ski (scenario_of capability)).entity ≡ some e =
      found_by _ ski e i in
    cc (h, p)

checks-IsChecked :
    (controller : Option LpcController) (capability : Capability) (now : Time) (ski : Text)
    (value : Float) (seconds : ℤ) (s : ServiceState LpcCommand) (c : LpcController) (e : ℕ)
    → require_write_ski ski ≡ ok tt
    → non_negative value ≡ ok tt
    → non_negative_seconds seconds ≡ ok tt
    → initialized controller ≡ ok c
    → (resolve_compatible_entity now ski capability (resolver_of controller capability) s).1 ≡ ok e
    → IsChecked controller (scenario_of capability) ski value seconds e
checks-IsChecked controller capability now ski value seconds s c e h₂ h₃ h₄ h₅ h₆ =
    let known = initialized-eq-ok controller h₅ in
    record {
      use_case = c;
      initialized = known;
      device = require_write_ski-valid ski h₂;
      compatible = resolved-compatible c controller capability ski e known (
          resolve_compatible_entity-found now ski capability (resolver_of controller capability) s
            h₆);
      power = non_negative-IsNonNegative value h₃;
      seconds_count = non_negative_seconds-eq-ok seconds h₄;
    }

-- A number of seconds that is not negative, and a duration of as many seconds.
pub record Lasts (seconds : ℤ) (duration : Duration) : Type 0 where
  pub count : ℕ
  pub counted : seconds ≡ pos count
  pub lasting : IsSeconds count duration

duration_of-Lasts : (n : ℤ) → (m : ℕ) × (n ≡ pos m) → Lasts n (duration_of n)
duration_of-Lasts n (m, e) = record {
  count = m;
  counted = e;
  lasting = subst (λ i. IsSeconds m (duration_of i)) (sym e) (duration_of-IsSeconds m);
}

-- The command is the limit of the request, for an entity that was checked.
pub data IsLimitOf (controller : Option LpcController) (req : Option WriteLoadLimitRequest)
    : LpcCommand → Type 0 where
  is_limit_of :
      (r : WriteLoadLimitRequest) (entity : ℕ) (lasting : Duration)
      → req ≡ some r
      → IsChecked controller 1 r.ski r.value_watts r.duration_seconds entity
      → Lasts r.duration_seconds lasting
      → IsLimitOf controller req (
          write_limit entity (record {
            value = r.value_watts;
            duration = lasting;
            is_active = r.is_active;
            is_changeable = true;
          }))

-- Each command that WriteConsumptionLimit gives the use case has the value and the state of the
-- request and is for the entity that the use case named for scenario 1, the normalized SKI has 40
-- hexadecimal digits, the value is finite and not negative, and the request's number of seconds is
-- not negative. Below 9223372037 seconds the command's duration is exactly that long; from there on,
-- where the code does not check, it is the int64 that the number of nanoseconds wraps to.
pub write_consumption_limit-IsLimitOf :
    (controller : Option LpcController) (now : Time) (req : Option WriteLoadLimitRequest)
    (s : ServiceState LpcCommand)
    → Sends (IsLimitOf controller req) s (write_consumption_limit controller now req s)
unfolding write_consumption_limit resolve_capability_entity scenario_of
write_consumption_limit-IsLimitOf controller now req s =
    checked-Sends _ (require_device_request req) _ s (λ r h₁.
      checked-Sends _ (require_write_ski r.ski) _ s (λ _ h₂.
        checked-Sends _ (non_negative r.value_watts) _ s (λ _ h₃.
          checked-Sends _ (non_negative_seconds r.duration_seconds) _ s (λ _ h₄.
            checked-Sends _ (initialized controller) _ s (λ c h₅.
              continue-Sends _
                (resolve_compatible_entity now r.ski lpc (resolver_of controller lpc) s) _ s
                (resolve_compatible_entity-Sends _ now r.ski lpc _ s)
                (λ e h₆.
                  let all =
                    checks-IsChecked controller lpc now r.ski r.value_watts r.duration_seconds s c e
                      h₂ h₃ h₄ h₅ h₆ in
                  send-Sends _ c.outcome _ _ (
                    is_limit_of r e (duration_of r.duration_seconds)
                      (require_device_request-eq-ok req h₁) all
                      (duration_of-Lasts r.duration_seconds all.seconds_count))))))))

-- The command is a failsafe value of the request, for an entity that was checked.
pub data IsFailsafeOf (controller : Option LpcController) (req : Option WriteFailsafeLimitRequest)
    : LpcCommand → Type 0 where
  is_power_of :
      (r : WriteFailsafeLimitRequest) (entity : ℕ)
      → req ≡ some r
      → IsChecked controller 2 r.ski r.value_watts r.duration_minimum_seconds entity
      → IsFailsafeOf controller req (write_failsafe_power entity r.value_watts)
  is_duration_of :
      (r : WriteFailsafeLimitRequest) (entity : ℕ) (lasting : Duration)
      → req ≡ some r
      → IsChecked controller 2 r.ski r.value_watts r.duration_minimum_seconds entity
      → ltb_ℤ (pos 0) r.duration_minimum_seconds ≡ true
      → Lasts r.duration_minimum_seconds lasting
      → IsFailsafeOf controller req (write_failsafe_duration entity lasting)

write_duration-Sends :
    (P : LpcCommand → Type 0) (c : LpcController) (e : ℕ) (n : ℤ) (s : ServiceState LpcCommand)
    → (ltb_ℤ (pos 0) n ≡ true → P (write_failsafe_duration e (duration_of n)))
    → Sends P s (write_duration c e n s)
unfolding write_duration
write_duration-Sends P c e n s p =
    if_split (λ (m : Handler LpcCommand Unit). Sends P s (m s)) (ltb_ℤ (pos 0) n)
      (λ t. send-Sends P c.outcome (write_failsafe_duration e (duration_of n)) s (p t))
      (λ _. nothing-Sends P s _)

-- Each command that WriteFailsafeLimit gives the use case is the power of the request or, only where
-- the request's number of seconds is positive, its duration; it is for the entity that the use case
-- named for scenario 2, the normalized SKI has 40 hexadecimal digits, the power is finite and not
-- negative, and the number of seconds is not negative. Below 9223372037 seconds the duration is
-- exactly that long; from there on, where the code does not check, it is the int64 that the number
-- of nanoseconds wraps to.
pub write_failsafe_limit-IsFailsafeOf :
    (controller : Option LpcController) (now : Time) (req : Option WriteFailsafeLimitRequest)
    (s : ServiceState LpcCommand)
    → Sends (IsFailsafeOf controller req) s (write_failsafe_limit controller now req s)
unfolding write_failsafe_limit resolve_capability_entity scenario_of
write_failsafe_limit-IsFailsafeOf controller now req s =
    checked-Sends _ (require_device_request req) _ s (λ r h₁.
      checked-Sends _ (require_write_ski r.ski) _ s (λ _ h₂.
        checked-Sends _ (non_negative r.value_watts) _ s (λ _ h₃.
          checked-Sends _ (non_negative_seconds r.duration_minimum_seconds) _ s (λ _ h₄.
            checked-Sends _ (initialized controller) _ s (λ c h₅.
              continue-Sends _
                (resolve_compatible_entity now r.ski failsafe (resolver_of controller failsafe) s) _
                s (resolve_compatible_entity-Sends _ now r.ski failsafe _ s)
                (λ e h₆.
                  let req' = require_device_request-eq-ok req h₁ in
                  let all =
                    checks-IsChecked controller failsafe now r.ski r.value_watts
                      r.duration_minimum_seconds s c e h₂ h₃ h₄ h₅ h₆ in
                  continue-Sends _ (send c.outcome (write_failsafe_power e r.value_watts) _) _ _
                    (send-Sends _ c.outcome _ _ (is_power_of r e req' all))
                    (λ _ _. write_duration-Sends _ c e r.duration_minimum_seconds _ (λ t.
                      is_duration_of r e (duration_of r.duration_minimum_seconds) req' all t
                        (duration_of-Lasts r.duration_minimum_seconds all.seconds_count)))))))))
