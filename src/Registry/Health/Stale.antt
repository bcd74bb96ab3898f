-- ===== src/Registry/Health/Stale.antt =====
-- Which devices StaleDevices lists.
use eebus_ha_bridge.Prelude.{
  ◌≡◌, ◌<ℤ◌, pos, subst, sym, refl, List, [], ◌∷◌, Bool, true, false, some, arith, Any, ◌↔◌, ◌⊎◌,
  inl, inr, if◌then◌else◌,
}
use eebus_ha_bridge.Store.{Store, lookup}
use eebus_ha_bridge.Store.Unique.{IsUnique}
use eebus_ha_bridge.Ski.{Text, text_key}
use eebus_ha_bridge.Time.{Time, Duration, zero_time, sub}
use eebus_ha_bridge.Texts.{sort_texts}
use eebus_ha_bridge.Texts.Laws.{IsSorted, sort_by-IsSorted, Any-sort_by}
use eebus_ha_bridge.Registry.State.{MonitoringState, Registry}
use eebus_ha_bridge.Registry.Health.{
  heartbeat_on_connection, is_stale, collect_stale, stale_devices,
}

abbrev pub by_itself : Text → Text
by_itself k = k

Any-of_if :
    (P : Text → Type 0) (b : Bool) (x : Text) (l : List Text)
    → Any P (if b then x ∷ l else l)
    → ((b ≡ true) × P x) ⊎ Any P l
Any-of_if P true x l (inl p) = inl (refl, p)
Any-of_if P true x l (inr q) = inr q
Any-of_if P false x l q = inr q

Any-if_rest :
    (P : Text → Type 0) (b : Bool) (x : Text) (l : List Text)
    → Any P l
    → Any P (if b then x ∷ l else l)
Any-if_rest P true x l q = inr q
Any-if_rest P false x l q = q

Any-if_first :
    (P : Text → Type 0) (b : Bool) (x : Text) (l : List Text)
    → b ≡ true
    → P x
    → Any P (if b then x ∷ l else l)
Any-if_first P true x l e p = inl p
Any-if_first P false x l e p = cc

module _ (now : Time) (threshold grace_period : Duration) where
  -- A connection is stale where the device is connected for longer than the grace period and
  -- something is missing: a success since it connected, a success within the threshold, or, where
  -- heartbeats are required, a heartbeat within the last 120 seconds.
  abbrev pub IsStale : MonitoringState → Type 0
  IsStale state =
      (state.connected ≡ true)
      × (grace_period <ℤ sub now state.connected_at)
      × ((state.monitoring_success_on_connect ≡ false)
          ⊎ (threshold <ℤ sub now state.last_monitoring_success)
          ⊎ ((state.heartbeat_required ≡ true)
              × ((state.last_remote_heartbeat ≡ zero_time)
                  ⊎ (pos 120_000_000_000 <ℤ sub now state.last_remote_heartbeat))))

  is_stale-IsStale :
      (state : MonitoringState) → is_stale now threshold grace_period state ≡ true → IsStale state
  unfolding is_stale heartbeat_on_connection
  is_stale-IsStale state h = ground arith

  IsStale-is_stale :
      (state : MonitoringState) → IsStale state → is_stale now threshold grace_period state ≡ true
  unfolding is_stale heartbeat_on_connection
  IsStale-is_stale state h = ground arith

  -- The device is known to the health projection, and its connection is stale.
  abbrev pub HasStale : Store Text MonitoringState → Text → Type 0
  HasStale m k = (state : MonitoringState) × (lookup k m ≡ some state) × IsStale state

  listed-HasStale :
      (m : Store Text MonitoringState) (k : Text)
      → IsUnique m
      → Any (λ x. x ≡ k) (collect_stale now threshold grace_period m)
      → HasStale m k
  unfolding collect_stale lookup
  listed-HasStale [] k u h = absurd h
  listed-HasStale ((j, state) ∷ m) k u h =
      elim (Any-of_if (λ x. x ≡ k) (is_stale now threshold grace_period state) j
        (collect_stale now threshold grace_period m) h) [
          | inl (e, p) ↦ (state, ground (arith, p), is_stale-IsStale state e)
          | inr q ↦
              let (found, e, s) = listed-HasStale m k u.1 q in
              elim (text_key.same j k) [
                | yes p ↦ (found, cc (u.0, e, p), s)
                | no n ↦ (found, ground (arith, n, e), s)
              ]
        ]

  HasStale-listed :
      (m : Store Text MonitoringState) (k : Text)
      → HasStale m k
      → Any (λ x. x ≡ k) (collect_stale now threshold grace_period m)
  unfolding collect_stale lookup
  HasStale-listed [] k (state, e, s) = cc
  HasStale-listed ((j, state') ∷ m) k (state, e, s) = elim (text_key.same j k) [
    | yes p ↦
        let found : state' ≡ state = ground (arith, e, p) in
        Any-if_first (λ x. x ≡ k) (is_stale now threshold grace_period state') j
          (collect_stale now threshold grace_period m)
          (subst (λ x. is_stale now threshold grace_period x ≡ true) (sym found)
            (IsStale-is_stale state s))
          p
    | no n ↦
        Any-if_rest (λ x. x ≡ k) (is_stale now threshold grace_period state') j
          (collect_stale now threshold grace_period m)
          (HasStale-listed m k (state, ground (arith, e, n), s))
  ]

  -- StaleDevices lists, in order of their SKI, the devices of the health projection that are
  -- connected for longer than the grace period and either have not been monitored successfully
  -- since they connected or within the threshold, or must send heartbeats and have sent none or
  -- none within 120 seconds; it lists no other device. A map has each device once.
  pub stale_devices-HasStale :
      (r : Registry) (k : Text)
      → IsUnique r.health.monitoring
      → (Any (λ x. x ≡ k) (stale_devices r now threshold grace_period)
          ↔ HasStale r.health.monitoring k)
        × IsSorted by_itself (stale_devices r now threshold grace_period)
  unfolding stale_devices sort_texts
  stale_devices-HasStale r k u =
      let l = collect_stale now threshold grace_period r.health.monitoring in
      let sorted = Any-sort_by by_itself (λ x. x ≡ k) l in
      (
        (
          (λ h. listed-HasStale r.health.monitoring k u (sorted.1 h)),
          λ h. sorted.0 (HasStale-listed r.health.monitoring k h),
        ),
        sort_by-IsSorted by_itself l,
      )
