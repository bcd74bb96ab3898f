-- ===== src/Grpc/Ohpcf/Permitted.antt =====
-- In which state of the compressor a command reaches it.
use eebus_ha_bridge.Prelude.{
  ℕ, Bool, true, false, not, Option, none, some, ◌≡◌, refl, Result, ok, err, guard, if_err-eq-ok,
  ◌>>=◌, ◌>>◌, >>-eq-ok,
}
use eebus_ha_bridge.Ski.{Text, normalize_ski, valid_ski}
use eebus_ha_bridge.Time.{Time}
use eebus_ha_bridge.Registry.State.{ohpcf}
use eebus_ha_bridge.Grpc.Status.{
  Status, status, failed_precondition, require_device_request, require_write_ski,
  process_unavailable, not_running, not_paused, not_active, not_pausable, not_stoppable,
}
use eebus_ha_bridge.Grpc.Errors.{UsecaseError, map_usecase_error, standard_usecase_error_classes}
use eebus_ha_bridge.Grpc.Handler.{ServiceState, initialized, mapped, resolve_compatible_entity}
use eebus_ha_bridge.Grpc.Handler.Sent.{
  IsResolved, found_by, resolve_compatible_entity-found, Sends, checked-Sends, continue-Sends,
  send-Sends, nothing-Sends, resolve_compatible_entity-Sends,
}
use eebus_ha_bridge.Grpc.Lpc.Written.{
  require_write_ski-valid, require_device_request-eq-ok, initialized-eq-ok,
}
use eebus_ha_bridge.Grpc.Ohpcf.{
  ohpcf_resolver, ControlCompressorRequest, perform, start_or_zero, control_compressor_flexibility,
  resolve_ohpcf_entity,
}
use eebus_ha_bridge.Grpc.Compressor.{
  OhpcfController, OhpcfCommand, OhpcfAction, CompressorState, schedule, pause, resume, abort,
  is_ohpcf_optional_absent, is_running, is_paused, is_active, optional_flag, validate_ohpcf_action,
  action_schedule, action_pause, action_resume, action_abort, other_action,
}

-- The compressor's state, as it is read, passes the test.
pub record IsIn (test : CompressorState → Bool) (c : OhpcfController) (entity : ℕ) : Type 0 where
  pub state : CompressorState
  pub read : c.state entity ≡ ok state
  pub passes : test state ≡ true

-- A command that the compressor may be given for an action.
pub data IsAllowed (c : OhpcfController) (entity : ℕ) (start : Option Time)
    : OhpcfAction → OhpcfCommand → Type 0 where
  may_schedule :
      c.is_available entity ≡ ok true
      → IsAllowed c entity start action_schedule (schedule entity (start_or_zero start))
  may_pause :
      IsIn is_running c entity
      → (c.is_pausable entity).0 ≡ true
      → IsAllowed c entity start action_pause (pause entity)
  may_resume : IsIn is_paused c entity → IsAllowed c entity start action_resume (resume entity)
  may_abort :
      IsIn is_active c entity
      → (c.is_stoppable entity).0 ≡ true
      → IsAllowed c entity start action_abort (abort entity)

mapped-eq-ok : {A : Type 0} (r : Result UsecaseError A) {a : A} → mapped r ≡ ok a → r ≡ ok a
mapped-eq-ok (ok a) h = cc
mapped-eq-ok (err e) h = cc

required : (b : Bool) (e : Status) → guard (not b) e ≡ ok tt → b ≡ true
required true e h = refl
required false e h = cc

optional_flag-eq-ok :
    (f : Bool × Option UsecaseError) (e : Status) → optional_flag f e ≡ ok tt → f.0 ≡ true
unfolding optional_flag
optional_flag-eq-ok (b, none) e h = required b e h
optional_flag-eq-ok (b, some x) e h =
    let (_, h') =
      if_err-eq-ok (not (is_ohpcf_optional_absent x))
        (map_usecase_error x standard_usecase_error_classes) {r = guard (not b) e} h in
    required b e h'

mapped->>=-eq-ok :
    {A : Type 0} (r : Result UsecaseError A) (f : A → Result Status Unit)
    → (mapped r >>= f) ≡ ok tt
    → (a : A) × (r ≡ ok a) × (f a ≡ ok tt)
mapped->>=-eq-ok (ok a) f h = (a, refl, h)
mapped->>=-eq-ok (err e) f h = cc

-- The state that is read, and the flag.
flagged :
    (test : CompressorState → Bool) (c : OhpcfController) (entity : ℕ)
    (f : Bool × Option UsecaseError) (e e' : Status)
    → (mapped (c.state entity) >>= (λ st. guard (not (test st)) e >> optional_flag f e')) ≡ ok tt
    → IsIn test c entity × (f.0 ≡ true)
flagged test c entity f e e' h =
    let (st, r, h₁) =
      mapped->>=-eq-ok (c.state entity) (λ st. guard (not (test st)) e >> optional_flag f e') h in
    let (g, h₂) = >>-eq-ok (guard (not (test st)) e) (optional_flag f e') h₁ in
    (record { state = st; read = r; passes = required (test st) e g }, optional_flag-eq-ok f e' h₂)

-- What is performed was allowed.
perform-Sends :
    (P : OhpcfCommand → Type 0) (c : OhpcfController) (entity : ℕ) (start : Option Time)
    (action : OhpcfAction) (s : ServiceState OhpcfCommand)
    → validate_ohpcf_action c entity action ≡ ok tt
    → ((command : OhpcfCommand) → IsAllowed c entity start action command → P command)
    → Sends P s (perform c entity start action s)
unfolding validate_ohpcf_action perform
perform-Sends P c entity start action_schedule s h p =
    let (b, r, h₁) =
      mapped->>=-eq-ok (c.is_available entity)
        (λ b. guard (not b) (status failed_precondition process_unavailable)) h in
    send-Sends P c.outcome _ s (p _ (may_schedule (cc (r, required b _ h₁))))
perform-Sends P c entity start action_pause s h p =
    let (i, f) =
      flagged is_running c entity (c.is_pausable entity) (status failed_precondition not_running)
        (status failed_precondition not_pausable) h in
    send-Sends P c.outcome _ s (p _ (may_pause i f))
perform-Sends P c entity start action_resume s h p =
    let (st, r, h₁) =
      mapped->>=-eq-ok (c.state entity)
        (λ st. guard (not (is_paused st)) (status failed_precondition not_paused)) h in
    send-Sends P c.outcome _ s
      (p _ (may_resume (record { state = st; read = r; passes = required (is_paused st) _ h₁ })))
perform-Sends P c entity start action_abort s h p =
    let (i, f) =
      flagged is_active c entity (c.is_stoppable entity) (status failed_precondition not_active)
        (status failed_precondition not_stoppable) h in
    send-Sends P c.outcome _ s (p _ (may_abort i f))
perform-Sends P c entity start other_action s h p = nothing-Sends P s _

compatible_of :
    (c : OhpcfController) (controller : Option OhpcfController) (ski : Text) (e : ℕ)
    → controller ≡ some c
    → IsResolved (ohpcf_resolver controller) ski e
    → (c.compatible_entity ski).entity ≡ some e
compatible_of c none ski e h i = cc
compatible_of c (some d) ski e h i =
    let p : (d.compatible_entity ski).entity ≡ some e = found_by _ ski e i in cc (h, p)

-- A command that a request may lead to.
pub record IsPermitted (controller : Option OhpcfController) (req : Option ControlCompressorRequest)
    (command : OhpcfCommand) : Type 0 where
  pub request : ControlCompressorRequest
  pub requested : req ≡ some request
  pub device : valid_ski (normalize_ski request.ski) ≡ true
  pub use_case : OhpcfController
  pub initialized : controller ≡ some use_case
  pub entity : ℕ
  pub compatible : (use_case.compatible_entity request.ski).entity ≡ some entity
  pub allowed : IsAllowed use_case entity request.start_time request.action command

-- Each command that ControlCompressorFlexibility gives the use case is for the action of the
-- request, on the entity that the use case named for the request's well-formed SKI, and the
-- compressor permits it: a process is available to be scheduled, it runs and is pausable to be
-- paused, it is paused to be resumed, and it is scheduled, running or paused and stoppable to be
-- aborted.
pub control_compressor_flexibility-IsPermitted :
    (controller : Option OhpcfController) (now : Time) (req : Option ControlCompressorRequest)
    (s : ServiceState OhpcfCommand)
    → Sends (IsPermitted controller req) s (control_compressor_flexibility controller now req s)
unfolding control_compressor_flexibility resolve_ohpcf_entity
control_compressor_flexibility-IsPermitted controller now req s =
    checked-Sends _ (require_device_request req) _ s (λ r h₁.
      checked-Sends _ (require_write_ski r.ski) _ s (λ _ h₂.
        checked-Sends _ (initialized controller) _ s (λ c h₃.
          continue-Sends _ (resolve_compatible_entity now r.ski ohpcf _ s) _ s
            (resolve_compatible_entity-Sends _ now r.ski ohpcf _ s)
            (λ e h₅. checked-Sends _ (validate_ohpcf_action c e r.action) _ _ (λ _ h₄.
              perform-Sends _ c e r.start_time r.action _ h₄ (λ command a. record {
                request = r;
                requested = require_device_request-eq-ok req h₁;
                device = require_write_ski-valid r.ski h₂;
                use_case = c;
                initialized = initialized-eq-ok controller h₃;
                entity = e;
                compatible = compatible_of c controller r.ski e (initialized-eq-ok controller h₃) (
                    resolve_compatible_entity-found now r.ski ohpcf (ohpcf_resolver controller) s
                      h₅);
                allowed = a;
              }))))))
