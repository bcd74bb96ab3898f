-- ===== src/Recovery/Machine.antt =====
-- What each transition of recovery.go leaves in a device's record.
use eebus_ha_bridge.Prelude.{
  ℕ, suc, ◌+◌, ◌≡◌, ◌≢◌, sym, ap, ◌∙◌, Bool, true, false, ◌&&◌, ◌||◌, Option, none, some,
  if◌then◌else◌, ◌==◌, pos, leb_ℤ, ◌≤ℤ◌, arith, if_both, if_split, eq_of_parts,
}
use eebus_ha_bridge.Ski.{text_key}
use eebus_ha_bridge.Time.{Time, is_zero, before, add}
use eebus_ha_bridge.Recovery.{
  RecoveryState, recovering, exhausted, grace_period, healthy, same_recovery, RecoveryConfig,
  RecoverySnapshot, new_record, transition_locked, begin_attempt, finish_attempt, reset_record,
  keep_grace, first_record, backoff,
}

-- Between two calls no record is in the middle of an attempt, the attempts are within the budget,
-- and a record that is exhausted has spent it.
pub record IsSound (config : RecoveryConfig) (x : RecoverySnapshot) : Type 0 where
  pub bounded : pos x.attempts ≤ℤ config.max_attempts
  pub settled : x.state ≢ recovering
  pub spent : x.state ≡ exhausted → pos x.attempts ≡ config.max_attempts

pub transition-state :
    (x : RecoverySnapshot) (state : RecoveryState) (now : Time)
    → (transition_locked x state now).0.state ≡ state
unfolding transition_locked
transition-state x state now = ground arith

pub transition-attempts :
    (x : RecoverySnapshot) (state : RecoveryState) (now : Time)
    → (transition_locked x state now).0.attempts ≡ x.attempts
unfolding transition_locked
transition-attempts x state now = ground arith

pub transition-last :
    (x : RecoverySnapshot) (state : RecoveryState) (now : Time)
    → (transition_locked x state now).0.last_attempt_at ≡ x.last_attempt_at
unfolding transition_locked
transition-last x state now = ground arith

pub transition-next :
    (x : RecoverySnapshot) (state : RecoveryState) (now : Time)
    → (transition_locked x state now).0.next_attempt_at ≡ x.next_attempt_at
unfolding transition_locked
transition-next x state now = ground arith

-- The rules of transitionLocked, for automation.
pub ruleset transitions = (transition-state, transition-attempts, transition-last, transition-next)

module _ (config : RecoveryConfig) where
  pub transition-IsSound :
      (x : RecoverySnapshot) (state : RecoveryState) (now : Time)
      → pos x.attempts ≤ℤ config.max_attempts
      → state ≢ recovering
      → (state ≡ exhausted → pos x.attempts ≡ config.max_attempts)
      → IsSound config (transition_locked x state now).0
  transition-IsSound x state now b n e = record {
    bounded = omega (arith, b, transition-attempts x state now);
    settled = λ h. n (sym (transition-state x state now) ∙ h);
    spent =
        λ h. ap pos (transition-attempts x state now) ∙ e (sym (transition-state x state now) ∙ h);
  }

  -- Either no attempt follows and the record is sound, or the attempt is the next one, within the
  -- budget, and the record is in it.
  pub record Begun (x : RecoverySnapshot) (z : RecoverySnapshot × Option ℕ) : Type 0 where
    pub none_follows : z.1 ≡ none → IsSound config z.0
    pub one_follows :
        (n : ℕ)
        → z.1 ≡ some n
        → (n ≡ suc x.attempts)
          × (pos n ≤ℤ config.max_attempts)
          × (z.0.attempts ≡ n)
          × (z.0.state ≡ recovering)

  still : (x y : RecoverySnapshot) → IsSound config y → Begun x (y, none)
  still x y s = record { none_follows = λ h. s; one_follows = λ n h. cc }

  pub begin_lem :
      (x : RecoverySnapshot) (now : Time) → IsSound config x → Begun x (begin_attempt config now x)
  unfolding begin_attempt
  begin_lem x now s =
      if_both (Begun x) (same_recovery x.state recovering || same_recovery x.state exhausted)
        (still x x s)
        (if_both (Begun x) (same_recovery x.state grace_period && before now x.next_attempt_at)
          (still x x s)
          (if_split (Begun x) (leb_ℤ config.max_attempts (pos x.attempts))
            (λ e. still x (transition_locked x exhausted now).0 (
              transition-IsSound x exhausted now s.bounded (λ h. cc)
                (λ h.
                  eq_of_parts (pos x.attempts) config.max_attempts (ground (arith, s.bounded)))))
            (λ e. record { none_follows = λ h. cc; one_follows = λ n h. started n h e })))
    where
      first : Time
      first = if x.attempts == 0 && is_zero x.first_stale_at then now else x.first_stale_at

      begun : RecoverySnapshot
      begun =
          (transition_locked
            (record x { first_stale_at = first; attempts = x.attempts + 1; last_attempt_at = now })
            recovering now).0

      started :
          (n : ℕ)
          → some (x.attempts + 1) ≡ some n
          → leb_ℤ config.max_attempts (pos x.attempts) ≡ false
          → (n ≡ suc x.attempts)
            × (pos n ≤ℤ config.max_attempts)
            × (begun.attempts ≡ n)
            × (begun.state ≡ recovering)
      started n h e =
          let same : n ≡ x.attempts + 1 = cc in
          (
            omega (arith, same),
            ground (arith, same),
            ground (
              arith,
              same,
              transition-attempts
                  (record x {
                    first_stale_at = first;
                    attempts = x.attempts + 1;
                    last_attempt_at = now;
                  })
                  recovering now,
            ),
            transition-state _ recovering now,
          )

  pub finish-IsSound :
      (x : RecoverySnapshot) (now : Time)
      → x.state ≡ recovering
      → pos x.attempts ≤ℤ config.max_attempts
      → IsSound config (finish_attempt config now x.attempts x)
  unfolding finish_attempt
  finish-IsSound x now e b =
      if_split (IsSound config) (same_recovery x.state recovering && x.attempts == x.attempts)
        (λ h.
          transition-IsSound (record x { next_attempt_at = add now (backoff config x.attempts) })
            grace_period now b (λ h. cc) (λ h. cc))
        (λ h. ground arith)

  pub reset-IsSound :
      (x : RecoverySnapshot) (now : Time)
      → pos 0 ≤ℤ config.max_attempts
      → IsSound config (reset_record now x)
  unfolding reset_record
  reset-IsSound x now b = transition-IsSound _ healthy now b (λ h. cc) (λ h. cc)

  pub keep_grace-IsSound :
      (x : RecoverySnapshot) (now : Time)
      → pos x.attempts ≤ℤ config.max_attempts
      → IsSound config (keep_grace config now x)
  unfolding keep_grace
  keep_grace-IsSound x now b =
      if_both (IsSound config) (is_zero (transition_locked x grace_period now).0.next_attempt_at)
        (record { bounded = moved.bounded; settled = moved.settled; spent = moved.spent }) moved
    where
      moved : IsSound config (transition_locked x grace_period now).0
      moved = transition-IsSound x grace_period now b (λ h. cc) (λ h. cc)

  pub first_record-IsSound :
      (now : Time) (success : Bool)
      → pos 0 ≤ℤ config.max_attempts
      → IsSound config (first_record config now success)
  unfolding first_record
  first_record-IsSound now true b =
      transition-IsSound (new_record now) healthy now b (λ h. cc) (λ h. cc)
  first_record-IsSound now false b = record {
    bounded = moved.bounded;
    settled = moved.settled;
    spent = moved.spent;
  }
    where
      moved : IsSound config (transition_locked (new_record now) grace_period now).0
      moved = transition-IsSound (new_record now) grace_period now b (λ h. cc) (λ h. cc)
