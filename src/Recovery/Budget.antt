-- ===== src/Recovery/Budget.antt =====
-- What has been spent on a device that stays dead is in its record.
use eebus_ha_bridge.Prelude.{
  refl, true, ℕ, ◌+◌, ◌≡◌, sym, ap, subst, ◌∙◌, List, [], ◌∷◌, Bool, false, not, ◌&&◌, ◌||◌, Option,
  some, ite, pos, ◌≤ℤ◌, arith, if_both, if_split, inl, inr, Option-cases, ◌≤◌,
}
use eebus_ha_bridge.Store.{lookup}
use eebus_ha_bridge.Ski.{Text, text_key, Text-discrete, normalize_ski}
use eebus_ha_bridge.Time.{Time, is_zero, before}
use eebus_ha_bridge.Registry.Health.{DeviceHealthSnapshot}
use eebus_ha_bridge.Recovery.{
  RecoveryState, exhausted, grace_period, untrusted, disconnected, same_recovery, RecoveryConfig,
  RecoverySnapshot, RecoverySupervisor, RecoveryRegistry, RecoveryController, record_locked,
  set_record, recover, reconnect, recover_all, reconcile_connected, reconcile_healthy,
  reconcile_all, reconcile_unless_stale, restart_decision, tick, is_stale_ski, transition_locked,
  begin_attempt, finish_attempt, reset_record, keep_grace, first_record,
}
use eebus_ha_bridge.Prelude.{All}
use eebus_ha_bridge.Recovery.Machine.{transition-attempts}
use eebus_ha_bridge.Recovery.Ticks.{run_ticks, record-set}
use eebus_ha_bridge.Recovery.Attempts.{
  attempts_at, Counts, NeverSucceeds, IsQuiet, begin-attempts, finish-attempts, attempts-set,
  attempts-locked, last_at, Late, last-set, last-locked, begin-last, finish-last,
}

module _ {W : Type 0} (registry : RecoveryRegistry W) (controller : RecoveryController W) (k : Text)
    (count : W → ℕ) (Dead : W → Type 0) (counts : Counts registry controller k count) (died : Time)
    (never : NeverSucceeds registry controller k died Dead) (after_zero : pos 1 ≤ℤ died)
    (start : ℕ) where
  -- What has been spent is recorded.
  abbrev Paid : RecoverySupervisor → W → Type 0
  Paid s w =
      Dead w × (count w ≤ start + attempts_at s k) × Late died (attempts_at s k) (last_at s k)

  count-reconnect :
      (w : W) (j : Text)
      → count (reconnect registry (some controller) w j)
        ≡ ite (Text-discrete j k) (count w + 1) (count w)
  unfolding reconnect
  count-reconnect w j = ground (
    arith,
    counts.registers (controller.unregister_remote_ski (registry.clear_entities w j) j) j,
    counts.unregisters (registry.clear_entities w j) j,
    counts.clears w j,
  )

  dead-reconnect : (w : W) (j : Text) → Dead w → Dead (reconnect registry (some controller) w j)
  unfolding reconnect
  dead-reconnect w j d =
      never.registers (controller.unregister_remote_ski (registry.clear_entities w j) j) j
        (never.unregisters (registry.clear_entities w j) j (never.clears w j d))

  kept-Paid :
      (s : RecoverySupervisor) (w : W) (j : Text) (x : RecoverySnapshot)
      → (j ≡ k → (x.attempts ≡ attempts_at s k) × Late died x.attempts x.last_attempt_at)
      → Paid s w
      → Paid (set_record s j x) w
  kept-Paid s w j x h p = elim (text_key.same j k) [
    | yes e ↦ (
      p.0,
      ground (arith, attempts-set s j k x, (h e).0, e, p.1),
      ground (arith, attempts-set s j k x, last-set s j k x, (h e).1, e),
    )
    | no n ↦ (
      p.0,
      ground (arith, attempts-set s j k x, n, p.1),
      ground (arith, attempts-set s j k x, last-set s j k x, n, p.2),
    )
  ]

  -- The same, where the time of the last attempt is kept too.
  same-Paid :
      (s : RecoverySupervisor) (w : W) (j : Text) (x : RecoverySnapshot)
      → (j ≡ k → (x.attempts ≡ attempts_at s k) × (x.last_attempt_at ≡ last_at s k))
      → Paid s w
      → Paid (set_record s j x) w
  same-Paid s w j x h p = kept-Paid s w j x (λ e. ((h e).0, ground (arith, h e, p.2))) p

  recover-Paid :
      (s : RecoverySupervisor) (w : W) (now : Time) (j : Text)
      → died ≤ℤ now
      → Paid s w
      → Paid
          (recover registry (some controller) s w now j).0
          (recover registry (some controller) s w now j).1
  unfolding recover
  recover-Paid s w now j late p =
      elim (Option-cases (begin_attempt s.config now (record_locked s j now)).1) [
        | inl e ↦
            rw (e, recover)
              (same-Paid s w j begun.0
                (λ h. (
                  ground (
                    arith,
                    e,
                    h,
                    begin-attempts s.config now (record_locked s j now),
                    attempts-locked s j now,
                  ),
                  ground (
                    arith,
                    e,
                    h,
                    begin-last s.config now (record_locked s j now),
                    last-locked s j now,
                  ),
                ))
                p)
        | inr (n, e) ↦ rw (e, recover) (dead-reconnect w j p.0, spent_one n e, late_one n e)
      ]
    where
      begun : RecoverySnapshot × Option ℕ
      begun = begin_attempt s.config now (record_locked s j now)

      final : ℕ → RecoverySnapshot
      final n = finish_attempt s.config now n (record_locked (set_record s j begun.0) j now)

      final-attempts : (n : ℕ) → begun.1 ≡ some n → (final n).attempts ≡ attempts_at s j + 1
      final-attempts n e =
          finish-attempts s.config now n (record_locked (set_record s j begun.0) j now)
          ∙ ap (λ (x : RecoverySnapshot). x.attempts) (record-set s j begun.0 now)
          ∙ begin-attempts s.config now (record_locked s j now)
          ∙ rw e (ap (λ m. m + 1) (attempts-locked s j now))

      final-last : (n : ℕ) → begun.1 ≡ some n → (final n).last_attempt_at ≡ now
      final-last n e =
          finish-last s.config now n (record_locked (set_record s j begun.0) j now)
          ∙ ap (λ (x : RecoverySnapshot). x.last_attempt_at) (record-set s j begun.0 now)
          ∙ begin-last s.config now (record_locked s j now)
          ∙ rw e refl

      after : RecoverySupervisor
      after = set_record s j begun.0

      late_one :
          (n : ℕ)
          → begun.1 ≡ some n
          → Late died
              (attempts_at (set_record after j (final n)) k)
              (last_at (set_record after j (final n)) k)
      late_one n e = elim (text_key.same j k) [
        | yes q ↦
            let l : last_at (set_record after j (final n)) k ≡ now =
              ground (arith, q, last-set after j k (final n), final-last n e) in
            inr (subst (λ t. died ≤ℤ t) (sym l) late)
        | no q ↦
            let l : last_at (set_record after j (final n)) k ≡ last_at s k =
              ground (arith, q, last-set after j k (final n), last-set s j k begun.0) in
            let a : attempts_at (set_record after j (final n)) k ≡ attempts_at s k =
              ground (arith, q, attempts-set after j k (final n), attempts-set s j k begun.0) in
            ground (arith, l, a, p.2)
      ]

      spent_one :
          (n : ℕ)
          → begun.1 ≡ some n
          → count (reconnect registry (some controller) w j)
            ≤ start + attempts_at (set_record (set_record s j begun.0) j (final n)) k
      spent_one n e = elim (text_key.same j k) [
        | yes q ↦ ground (
          arith,
          q,
          p.1,
          count-reconnect w j,
          attempts-set (set_record s j begun.0) j k (final n),
          final-attempts n e,
          ap (attempts_at s) q,
        )
        | no q ↦ ground (
          arith,
          q,
          p.1,
          count-reconnect w j,
          attempts-set (set_record s j begun.0) j k (final n),
          attempts-set s j k begun.0,
        )
      ]

  transition-last :
      (x : RecoverySnapshot) (state : RecoveryState) (now : Time)
      → (transition_locked x state now).0.last_attempt_at ≡ x.last_attempt_at
  unfolding transition_locked
  transition-last x state now = ground arith

  transition-Paid :
      (s : RecoverySupervisor) (w : W) (now : Time) (j : Text) (state : RecoveryState)
      → Paid s w
      → Paid (set_record s j (transition_locked (record_locked s j now) state now).0) w
  transition-Paid s w now j state p =
      same-Paid s w j (transition_locked (record_locked s j now) state now).0
        (λ e. (
          transition-attempts (record_locked s j now) state now
              ∙ attempts-locked s j now
              ∙ ap (attempts_at s) e,
          transition-last (record_locked s j now) state now
              ∙ last-locked s j now
              ∙ ap (last_at s) e,
        ))
        p

  keep_grace-keeps :
      (config : RecoveryConfig) (now : Time) (x : RecoverySnapshot)
      → ((keep_grace config now x).attempts ≡ x.attempts)
        × ((keep_grace config now x).last_attempt_at ≡ x.last_attempt_at)
  unfolding keep_grace transition_locked
  keep_grace-keeps config now x = (ground arith, ground arith)

  first_record-attempts :
      (config : RecoveryConfig) (now : Time) (b : Bool)
      → ((first_record config now b).attempts ≡ 0)
        × (is_zero (first_record config now b).last_attempt_at ≡ true)
  unfolding first_record transition_locked
  first_record-attempts config now b = (ground arith, ground arith)

  reset-attempts :
      (now : Time) (x : RecoverySnapshot)
      → ((reset_record now x).attempts ≡ 0) × (is_zero (reset_record now x).last_attempt_at ≡ true)
  unfolding reset_record transition_locked
  reset-attempts now x = (ground arith, ground arith)

  late-nonzero : (t : Time) → died ≤ℤ t → is_zero t ≡ false
  late-nonzero t late = ground (arith, after_zero, late)

  -- What makes the supervisor reset a record has not happened to the dead device.
  forgets_nothing :
      (w : W) (x : RecoverySnapshot) (b : Bool)
      → not (is_zero x.last_attempt_at) && registry.monitoring_success_since w k x.last_attempt_at
          || is_zero x.last_attempt_at && b
        ≡ true
      → Dead w
      → Late died x.attempts x.last_attempt_at
      → x.attempts ≡ 0
  forgets_nothing w x b h d (inl (z, a)) = a
  forgets_nothing w x b h d (inr l) =
      ground (arith, h, late-nonzero x.last_attempt_at l, never.since w x.last_attempt_at d l)

  reconcile_connected-Paid :
      (s : RecoverySupervisor) (w : W) (now : Time) (d : DeviceHealthSnapshot)
      (x : RecoverySnapshot)
      → died ≤ℤ now
      → lookup (normalize_ski d.ski) s.records ≡ some x
      → Paid s w
      → Paid
          (reconcile_connected registry (some controller) s w now d x).0
          (reconcile_connected registry (some controller) s w now d x).1
  unfolding reconcile_connected
  reconcile_connected-Paid s w now d x late e p =
      if_split (λ (z : RecoverySupervisor × W). Paid z.0 z.1)
        (not (is_zero x.last_attempt_at)
            && registry.monitoring_success_since w (normalize_ski d.ski) x.last_attempt_at
          || is_zero x.last_attempt_at && d.monitoring_success_on_connect)
        (λ h.
          kept-Paid s w (normalize_ski d.ski) (reset_record now x)
            (λ q.
              let f = here q in
              (
                (reset-attempts now x).0
                    ∙ sym (
                        forgets_nothing w x d.monitoring_success_on_connect
                          (subst
                            (λ j.
                              not (is_zero x.last_attempt_at)
                                  && registry.monitoring_success_since w j x.last_attempt_at
                                || is_zero x.last_attempt_at && d.monitoring_success_on_connect
                              ≡ true)
                            q h)
                          p.0 (ground (arith, f, p.2)))
                    ∙ f.0,
                inl ((reset-attempts now x).1, (reset-attempts now x).0),
              ))
            p)
        (λ h.
          if_both (λ (z : RecoverySupervisor × W). Paid z.0 z.1) (same_recovery x.state exhausted) p
            (if_both (λ (z : RecoverySupervisor × W). Paid z.0 z.1)
              (same_recovery x.state grace_period && not (before now x.next_attempt_at))
              (recover-Paid s w now (normalize_ski d.ski) late p)
              (same-Paid s w (normalize_ski d.ski) (keep_grace s.config now x)
                (λ q. (
                  (keep_grace-keeps s.config now x).0 ∙ (here q).0,
                  (keep_grace-keeps s.config now x).1 ∙ (here q).1,
                ))
                p)))
    where
      here :
          normalize_ski d.ski ≡ k
          → (x.attempts ≡ attempts_at s k) × (x.last_attempt_at ≡ last_at s k)
      here q = (ground (arith, q, e), ground (arith, q, e))

  reconcile-Paid :
      (s : RecoverySupervisor) (w : W) (now : Time) (d : DeviceHealthSnapshot)
      → died ≤ℤ now
      → Paid s w
      → Paid
          (reconcile_healthy registry (some controller) s w now d).0
          (reconcile_healthy registry (some controller) s w now d).1
  unfolding reconcile_healthy
  reconcile-Paid s w now d late p =
      if_both (λ (z : RecoverySupervisor × W). Paid z.0 z.1) (d.trust_known && not d.trusted)
        (transition-Paid s w now (normalize_ski d.ski) untrusted p)
        (if_both (λ (z : RecoverySupervisor × W). Paid z.0 z.1) (not d.connected)
          (transition-Paid s w now (normalize_ski d.ski) disconnected p)
          (elim (Option-cases (lookup (normalize_ski d.ski) s.records)) [
            | inl e ↦ rw e (
                kept-Paid s w (normalize_ski d.ski)
                  (first_record s.config now d.monitoring_success_on_connect)
                  (λ q.
                    let fresh =
                      first_record-attempts s.config now d.monitoring_success_on_connect in
                    (ground (arith, q, e, fresh.0), inl (fresh.1, fresh.0)))
                  p)
            | inr (x, e) ↦ rw e (reconcile_connected-Paid s w now d x late e p)
          ]))

  recover_all-Paid :
      (s : RecoverySupervisor) (w : W) (now : Time) (stale : List Text)
      → died ≤ℤ now
      → Paid s w
      → Paid
          (recover_all registry (some controller) s w now stale).0
          (recover_all registry (some controller) s w now stale).1
  unfolding recover_all
  recover_all-Paid s w now [] late p = p
  recover_all-Paid s w now (j ∷ stale) late p =
      recover_all-Paid (recover registry (some controller) s w now (normalize_ski j)).0
        (recover registry (some controller) s w now (normalize_ski j)).1 now stale late
        (recover-Paid s w now (normalize_ski j) late p)

  one-Paid :
      (s : RecoverySupervisor) (w : W) (now : Time) (stale : List Text) (d : DeviceHealthSnapshot)
      → died ≤ℤ now
      → Paid s w
      → Paid
          (reconcile_unless_stale registry (some controller) s w now stale d).0
          (reconcile_unless_stale registry (some controller) s w now stale d).1
  unfolding reconcile_unless_stale
  one-Paid s w now stale d late p =
      if_both (λ (z : RecoverySupervisor × W). Paid z.0 z.1)
        (is_stale_ski stale (normalize_ski d.ski)) p (reconcile-Paid s w now d late p)

  reconcile_all-Paid :
      (s : RecoverySupervisor) (w : W) (now : Time) (stale : List Text)
      (health : List DeviceHealthSnapshot)
      → died ≤ℤ now
      → Paid s w
      → Paid
          (reconcile_all registry (some controller) s w now stale health).0
          (reconcile_all registry (some controller) s w now stale health).1
  unfolding reconcile_all
  reconcile_all-Paid s w now stale [] late p = p
  reconcile_all-Paid s w now stale (d ∷ health) late p =
      reconcile_all-Paid (reconcile_unless_stale registry (some controller) s w now stale d).0
        (reconcile_unless_stale registry (some controller) s w now stale d).1 now stale health late
        (one-Paid s w now stale d late p)

  decision-Paid :
      (s : RecoverySupervisor) (w : W) (health : List DeviceHealthSnapshot)
      → Paid s w
      → Paid (restart_decision s health).0 w
  unfolding restart_decision
  decision-Paid s w health p = p

  tick-Paid :
      (s : RecoverySupervisor) (w : W) (now : Time)
      → died ≤ℤ now
      → Paid s w
      → Paid
          (tick (some registry) (some controller) s w now).0
          (tick (some registry) (some controller) s w now).1
  unfolding tick
  tick-Paid s w now late p =
      let health = registry.list_device_health w in
      let stale = registry.stale_devices w s.config.stale_threshold s.config.grace in
      let z = recover_all registry (some controller) s w now stale in
      let y = reconcile_all registry (some controller) z.0 z.1 now stale health in
      decision-Paid y.0 y.1 health
        (reconcile_all-Paid z.0 z.1 now stale health late (recover_all-Paid s w now stale late p))

  pub ticks-Paid :
      (s : RecoverySupervisor) (w : W) (ticks : List ((W → W) × Time))
      → All (IsQuiet count Dead died) ticks
      → Paid s w
      → Paid
          (run_ticks (some registry) (some controller) s w ticks).0
          (run_ticks (some registry) (some controller) s w ticks).1
  unfolding run_ticks
  ticks-Paid s w [] q p = p
  ticks-Paid s w ((change, now) ∷ ticks) q p =
      ticks-Paid (tick (some registry) (some controller) s (change w) now).0
        (tick (some registry) (some controller) s (change w) now).1 ticks q.1
        (tick-Paid s (change w) now q.0.2 (q.0.0 w p.0, omega (arith, p.1, q.0.1 w), p.2))
