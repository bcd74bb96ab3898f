-- ===== src/Recovery/Restart.antt =====
-- When a tick asks for a restart of the process.
use eebus_ha_bridge.Prelude.{
  suc, ◌≡◌, refl, sym, ap, subst, ◌∙◌, List, [], ◌∷◌, Bool, true, false, ◌&&◌, Option, some, ltb,
  ◌==◌, arith, inl, inr, Bool-cases, ◌≤◌,
}
use eebus_ha_bridge.Store.{Store, lookup}
use eebus_ha_bridge.Ski.{Text, text_key}
use eebus_ha_bridge.Time.{Time}
use eebus_ha_bridge.Registry.Health.{DeviceHealthSnapshot}
use eebus_ha_bridge.Recovery.{
  RecoverySnapshot, RecoverySupervisor, RecoveryRegistry, RecoveryController, restart_decision,
  tick,
}
use eebus_ha_bridge.Recovery.{relevant, is_exhausted, exhausted_of}
use eebus_ha_bridge.Recovery.Settings.{before_decision, before_decision-Keeps}
use eebus_ha_bridge.Prelude.{length, All, ◌<◌, ◌↔◌}
use eebus_ha_bridge.Texts.{sort_texts, sort_by, insert_sorted}

abbrev by_itself : Text → Text
by_itself k = k

length-insert : (k : Text) (l : List Text) → length (insert_sorted by_itself k l) ≡ suc (length l)
unfolding insert_sorted
length-insert k [] = refl
length-insert k (j ∷ l) = ground (arith, length-insert k l)

length-sort : (l : List Text) → length (sort_texts l) ≡ length l
unfolding sort_texts sort_by
length-sort [] = refl
length-sort (k ∷ l) = length-insert k (sort_texts l) ∙ ap suc (length-sort l)

module _ (records : Store Text RecoverySnapshot) where
  exhausted-insert :
      (k : Text) (l : List Text)
      → length (exhausted_of records (insert_sorted by_itself k l))
        ≡ length (exhausted_of records (k ∷ l))
  unfolding insert_sorted exhausted_of
  exhausted-insert k [] = refl
  exhausted-insert k (j ∷ l) = ground (arith, exhausted-insert k l)

  exhausted-sort :
      (l : List Text)
      → length (exhausted_of records (sort_texts l)) ≡ length (exhausted_of records l)
  unfolding sort_texts sort_by exhausted_of
  exhausted-sort [] = refl
  exhausted-sort (k ∷ l) = exhausted-insert k (sort_texts l) ∙ ground (arith, exhausted-sort l)

  exhausted_le : (l : List Text) → length (exhausted_of records l) ≤ length l
  unfolding exhausted_of
  exhausted_le [] = omega arith
  exhausted_le (k ∷ l) = ground (arith, exhausted_le l)

  abbrev IsSpent : Text → Type 0
  IsSpent k = is_exhausted (lookup k records) ≡ true

  All-of_length : (l : List Text) → length (exhausted_of records l) ≡ length l → All IsSpent l
  unfolding exhausted_of
  All-of_length [] h = tt
  All-of_length (k ∷ l) h = elim (Bool-cases (is_exhausted (lookup k records))) [
    | inl e ↦ (e, All-of_length l (ground (arith, e, h)))
    | inr e ↦ ground (arith, e, h, exhausted_le l)
  ]

  length_of_All : (l : List Text) → All IsSpent l → length (exhausted_of records l) ≡ length l
  unfolding exhausted_of
  length_of_All [] h = refl
  length_of_All (k ∷ l) h = ground (arith, length_of_All l h.1)

-- There is a device that matters, one that is connected and not distrusted, and the record of each
-- such device is exhausted.
pub record AllExhausted (health : List DeviceHealthSnapshot) (records : Store Text RecoverySnapshot)
    : Type 0 where
  pub some_device : 0 < length (relevant health)
  pub all : All (λ k. is_exhausted (lookup k records) ≡ true) (relevant health)

abbrev verdict : List DeviceHealthSnapshot → Store Text RecoverySnapshot → Bool
verdict health records =
    let skis = sort_texts (relevant health) in
    ltb 0 (length skis) && length (exhausted_of records skis) == length skis

verdict_sound :
    (health : List DeviceHealthSnapshot) (records : Store Text RecoverySnapshot)
    → verdict health records ≡ true
    → AllExhausted health records
verdict_sound health records h = record {
  some_device = ground (arith, h, length-sort (relevant health));
  all =
      All-of_length records (relevant health) (
        ground (arith, h, length-sort (relevant health), exhausted-sort records (relevant health)));
}

verdict_complete :
    (health : List DeviceHealthSnapshot) (records : Store Text RecoverySnapshot)
    → AllExhausted health records
    → verdict health records ≡ true
verdict_complete health records a = ground (
  arith,
  a.some_device,
  length_of_All records (relevant health) a.all,
  length-sort (relevant health),
  exhausted-sort records (relevant health),
)

decision_forth :
    (s : RecoverySupervisor) (health : List DeviceHealthSnapshot)
    → (restart_decision s health).1.restart_required ≡ true
    → (s.restart_signalled ≡ false) × AllExhausted health s.records
unfolding restart_decision
decision_forth s health h = (ground (arith, h), verdict_sound health s.records (ground (arith, h)))

decision_back :
    (s : RecoverySupervisor) (health : List DeviceHealthSnapshot)
    → s.restart_signalled ≡ false
    → AllExhausted health s.records
    → (restart_decision s health).1.restart_required ≡ true
unfolding restart_decision
decision_back s health e a = ground (arith, e, verdict_complete health s.records a)

decision_latch :
    (s : RecoverySupervisor) (health : List DeviceHealthSnapshot)
    → AllExhausted health s.records
    → (restart_decision s health).0.restart_signalled ≡ true
unfolding restart_decision
decision_latch s health a = verdict_complete health s.records a

decision-records :
    (s : RecoverySupervisor) (health : List DeviceHealthSnapshot)
    → (restart_decision s health).0.records ≡ s.records
unfolding restart_decision
decision-records s health = refl

module _ {W : Type 0} (registry : RecoveryRegistry W)
    (controller : Option (RecoveryController W)) where
  -- A tick asks for a restart exactly when there are devices that are connected and not distrusted,
  -- the tick leaves the record of every one of them exhausted, and the latch was not set, which is
  -- set when the tick before found that too.
  pub tick-restart_required :
      (s : RecoverySupervisor) (w : W) (now : Time)
      → ((tick (some registry) controller s w now).2.restart_required ≡ true) ↔ (
          (s.restart_signalled ≡ false)
          × AllExhausted
              (registry.list_device_health w)
              (tick (some registry) controller s w now).0.records)
  unfolding tick
  tick-restart_required s w now =
      let ready = before_decision registry controller s w now in
      let health = registry.list_device_health w in
      let kept = before_decision-Keeps registry controller s w now in
      let same = decision-records ready health in
      (
        λ h.
            let found = decision_forth ready health h in
            (sym kept.same_latch ∙ found.0, subst (AllExhausted health) (sym same) found.1),
        λ (e, a).
            decision_back ready health (kept.same_latch ∙ e) (subst (AllExhausted health) same a),
      )

  -- Two ticks in a row, with any world at the second: where the second asks for a restart, the first
  -- did not leave every device exhausted that was connected and not distrusted then, so a restart is
  -- not asked for again while all stay exhausted.
  pub tick-tick :
      (s : RecoverySupervisor) (w w' : W) (now now' : Time)
      → (tick
          (some registry)
          controller
          (tick (some registry) controller s w now).0
          w'
          now').2.restart_required
        ≡ true
      → ¬ AllExhausted
          (registry.list_device_health w)
          (tick (some registry) controller s w now).0.records
  unfolding tick
  tick-tick s w w' now now' h a =
      let ready = before_decision registry controller s w now in
      let health = registry.list_device_health w in
      let latched =
        decision_latch ready health
          (subst (AllExhausted health) (decision-records ready health) a) in
      let next = (tick-restart_required (tick (some registry) controller s w now).0 w' now').0 h in
      cc (latched, next.0)
