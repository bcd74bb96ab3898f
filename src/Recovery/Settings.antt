-- ===== src/Recovery/Settings.antt =====
-- No call but the decision on a restart changes the supervisor's settings or its restart latch.
use eebus_ha_bridge.Prelude.{
  ◌≡◌, refl, ◌∙◌, List, [], ◌∷◌, not, ◌&&◌, Option, none, some, if_both, inl, inr, Option-cases,
}
use eebus_ha_bridge.Store.{lookup}
use eebus_ha_bridge.Ski.{Text, text_key, normalize_ski}
use eebus_ha_bridge.Time.{Time}
use eebus_ha_bridge.Registry.Health.{DeviceHealthSnapshot}
use eebus_ha_bridge.Recovery.{
  RecoverySnapshot, RecoverySupervisor, RecoveryRegistry, RecoveryController, record_locked,
  set_record, recover, recover_all, reconcile_connected, reconcile_healthy, reconcile_all,
  reconcile_unless_stale, restart_decision, tick, is_stale_ski, begin_attempt, reset_record,
  keep_grace,
}

-- Whatever a call does to the records, it leaves the configuration and the latch.
pub record Keeps (s s' : RecoverySupervisor) : Type 0 where
  pub same_config : s'.config ≡ s.config
  pub same_latch : s'.restart_signalled ≡ s.restart_signalled

Keeps-refl : (s : RecoverySupervisor) → Keeps s s
Keeps-refl s = record { same_config = refl; same_latch = refl }

Keeps-trans : {s t u : RecoverySupervisor} → Keeps s t → Keeps t u → Keeps s u
Keeps-trans f g = record {
  same_config = g.same_config ∙ f.same_config;
  same_latch = g.same_latch ∙ f.same_latch;
}

set-Keeps : (s : RecoverySupervisor) (k : Text) (x : RecoverySnapshot) → Keeps s (set_record s k x)
unfolding set_record
set-Keeps s k x = record { same_config = refl; same_latch = refl }

module _ {W : Type 0} (registry : RecoveryRegistry W)
    (controller : Option (RecoveryController W)) where
  recover-Keeps :
      (s : RecoverySupervisor) (w : W) (now : Time) (k : Text)
      → Keeps s (recover registry controller s w now k).0
  unfolding recover
  recover-Keeps s w now k =
      elim (Option-cases (begin_attempt s.config now (record_locked s k now)).1) [
        | inl e ↦ rw (e, recover) (set-Keeps s k _)
        | inr (n, e) ↦ rw (e, recover) (Keeps-trans (set-Keeps s k _) (set-Keeps _ k _))
      ]

  reconcile_connected-Keeps :
      (s : RecoverySupervisor) (w : W) (now : Time) (d : DeviceHealthSnapshot)
      (x : RecoverySnapshot)
      → Keeps s (reconcile_connected registry controller s w now d x).0
  unfolding reconcile_connected
  reconcile_connected-Keeps s w now d x =
      if_both (λ (z : RecoverySupervisor × W). Keeps s z.0) _
        (set-Keeps s (normalize_ski d.ski) (reset_record now x))
        (if_both (λ (z : RecoverySupervisor × W). Keeps s z.0) _ (Keeps-refl s)
          (if_both (λ (z : RecoverySupervisor × W). Keeps s z.0) _
            (recover-Keeps s w now (normalize_ski d.ski))
            (set-Keeps s (normalize_ski d.ski) (keep_grace s.config now x))))

  reconcile-Keeps :
      (s : RecoverySupervisor) (w : W) (now : Time) (d : DeviceHealthSnapshot)
      → Keeps s (reconcile_healthy registry controller s w now d).0
  unfolding reconcile_healthy
  reconcile-Keeps s w now d =
      if_both (λ (z : RecoverySupervisor × W). Keeps s z.0) (d.trust_known && not d.trusted)
        (set-Keeps s (normalize_ski d.ski) _)
        (if_both (λ (z : RecoverySupervisor × W). Keeps s z.0) (not d.connected)
          (set-Keeps s (normalize_ski d.ski) _)
          (elim (Option-cases (lookup (normalize_ski d.ski) s.records)) [
            | inl e ↦ rw e (set-Keeps s (normalize_ski d.ski) _)
            | inr (x, e) ↦ rw e (reconcile_connected-Keeps s w now d x)
          ]))

  pub recover_all-Keeps :
      (s : RecoverySupervisor) (w : W) (now : Time) (stale : List Text)
      → Keeps s (recover_all registry controller s w now stale).0
  unfolding recover_all
  recover_all-Keeps s w now [] = Keeps-refl s
  recover_all-Keeps s w now (k ∷ stale) = Keeps-trans (recover-Keeps s w now (normalize_ski k)) (
      recover_all-Keeps (recover registry controller s w now (normalize_ski k)).0
        (recover registry controller s w now (normalize_ski k)).1 now stale)

  one-Keeps :
      (s : RecoverySupervisor) (w : W) (now : Time) (stale : List Text) (d : DeviceHealthSnapshot)
      → Keeps s (reconcile_unless_stale registry controller s w now stale d).0
  unfolding reconcile_unless_stale
  one-Keeps s w now stale d =
      if_both (λ (z : RecoverySupervisor × W). Keeps s z.0)
        (is_stale_ski stale (normalize_ski d.ski)) (Keeps-refl s) (reconcile-Keeps s w now d)

  pub reconcile_all-Keeps :
      (s : RecoverySupervisor) (w : W) (now : Time) (stale : List Text)
      (health : List DeviceHealthSnapshot)
      → Keeps s (reconcile_all registry controller s w now stale health).0
  unfolding reconcile_all
  reconcile_all-Keeps s w now stale [] = Keeps-refl s
  reconcile_all-Keeps s w now stale (d ∷ health) = Keeps-trans (one-Keeps s w now stale d) (
      reconcile_all-Keeps (reconcile_unless_stale registry controller s w now stale d).0
        (reconcile_unless_stale registry controller s w now stale d).1 now stale health)

  -- The supervisor that restartDecision is called on.
  abbrev pub before_decision : RecoverySupervisor → W → Time → RecoverySupervisor
  before_decision s w now =
      let health = registry.list_device_health w in
      let stale = registry.stale_devices w s.config.stale_threshold s.config.grace in
      let z = recover_all registry controller s w now stale in
      (reconcile_all registry controller z.0 z.1 now stale health).0

  pub before_decision-Keeps :
      (s : RecoverySupervisor) (w : W) (now : Time) → Keeps s (before_decision s w now)
  before_decision-Keeps s w now =
      Keeps-trans
        (recover_all-Keeps s w now
          (registry.stale_devices w s.config.stale_threshold s.config.grace))
        (reconcile_all-Keeps _ _ now _ _)

pub tick-config :
    {W : Type 0} (registry : Option (RecoveryRegistry W))
    (controller : Option (RecoveryController W)) (s : RecoverySupervisor) (w : W) (now : Time)
    → (tick registry controller s w now).0.config ≡ s.config
unfolding tick restart_decision
tick-config none controller s w now = refl
tick-config (some registry) controller s w now =
    (before_decision-Keeps registry controller s w now).same_config
