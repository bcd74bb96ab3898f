-- ===== src/Registry/Operations/Connection.antt =====
-- What the end of a connection leaves of a device's capabilities.
use eebus_ha_bridge.Prelude.{
  ◌≡◌, ◌≢◌, refl, sym, subst, ap, ◌∙◌, [], ◌∷◌, Bool, true, false, not, ◌⊎◌, inl, Option, none,
  some, arith, if_split, if_both, if◌then◌else◌,
}
use eebus_ha_bridge.Store.{Store, lookup, or_zero}
use eebus_ha_bridge.Store.Laws.{lookup-insert_ne, lookup-insert_self}
use eebus_ha_bridge.Store.Unique.{IsUnique}
use eebus_ha_bridge.Ski.{Text, text_key, normalize_ski}
use eebus_ha_bridge.Time.{Time}
use eebus_ha_bridge.Registry.State.{
  Capability, capability_key, DeviceCapability, Registry, MonitoringState, HealthStore, is_removed,
  unsupported, temporarily_unavailable, device_disconnected, local_disabled, same_state,
}
use eebus_ha_bridge.Registry.Capabilities.{
  fill_entries, initial_entry, entries_of, ensure_capabilities_locked, disconnect_entry,
  disconnect_loop, mark_capabilities_disconnected, locally_disabled, unless_removed,
}
use eebus_ha_bridge.Registry.Capabilities.Invariant.{Inv, Fits, entries_of-AllFit}
use eebus_ha_bridge.Registry.Health.{
  mark_disconnected, device_connection, set_monitoring, disconnect_state,
}
use eebus_ha_bridge.Registry.Capabilities.Entries.{
  entries-ensure, entries-set, written, Frame, ensure-Frame, set-Frame,
}

-- The capability is unsupported, or unavailable because the device is disconnected.
abbrev pub Settled : Option DeviceCapability → Type 0
Settled none = ⊥
Settled (some e) =
    (e.state ≡ unsupported)
    ⊎ ((e.state ≡ temporarily_unavailable) × (e.reason ≡ device_disconnected))

abbrev Stored : Registry → Text → Store Capability DeviceCapability → Type 0
Stored r k m = lookup k r.capabilities.entries ≡ some m

module _ (now : Time) (k : Text) where
  entries_of-Stored :
      (r : Registry) (m : Store Capability DeviceCapability) → Stored r k m → entries_of r now k ≡ m
  unfolding entries_of
  entries_of-Stored r m h = rw h refl

  -- A write of the state of a disconnected device settles its capability.
  written-Settled :
      (r : Registry) (c : Capability) (e : DeviceCapability)
      → lookup c (entries_of r now k) ≡ some e
      → Settled (lookup c (written r now k c temporarily_unavailable device_disconnected))
  written-Settled r c e h = ground (
    arith,
    h,
    lookup-insert_self c
        (record {
          id = c;
          state = if locally_disabled r c then unsupported else temporarily_unavailable;
          reason = if locally_disabled r c then local_disabled else device_disconnected;
          last_changed = now;
        })
        (entries_of r now k),
  )

  written_ne :
      (r : Registry) (c d : Capability)
      → c ≢ d
      → lookup d (written r now k c temporarily_unavailable device_disconnected)
        ≡ lookup d (entries_of r now k)
  written_ne r c d n = ground (
    arith,
    lookup-insert_ne c d
        (record {
          id = c;
          state = if locally_disabled r c then unsupported else temporarily_unavailable;
          reason = if locally_disabled r c then local_disabled else device_disconnected;
          last_changed = now;
        })
        (entries_of r now k) n,
  )

  -- One round of the loop settles its capability and leaves the others.
  record Round (r' : Registry) (c : Capability) (m : Store Capability DeviceCapability)
      : Type 0 where
    after : Store Capability DeviceCapability
    stored : Stored r' k after
    settled : Settled (lookup c after)
    others : (d : Capability) → c ≢ d → lookup d after ≡ lookup d m

  entry-Round :
      (r : Registry) (c : Capability) (e : DeviceCapability) (m : Store Capability DeviceCapability)
      → Stored r k m
      → lookup c m ≡ some e
      → Round (disconnect_entry r now k c e) c m
  unfolding disconnect_entry
  entry-Round r c e m s h =
      if_split (λ (x : Registry). Round x c m) (not (same_state e.state unsupported))
        (λ t. record {
          after = written r now k c temporarily_unavailable device_disconnected;
          stored =
              ground (arith, entries-set r now k k c temporarily_unavailable device_disconnected);
          settled =
              written-Settled r c e
                (subst (λ n. lookup c n ≡ some e) (sym (entries_of-Stored r m s)) h);
          others = λ d n. written_ne r c d n ∙ ap (lookup d) (entries_of-Stored r m s);
        })
        (λ t. record {
          after = m;
          stored = s;
          settled = rw h (inl (ground (arith, t)));
          others = λ d n. refl;
        })

  -- The loop over entries that the registry still holds settles each of them.
  record Done (r' : Registry) (l m : Store Capability DeviceCapability) : Type 0 where
    after : Store Capability DeviceCapability
    stored : Stored r' k after
    settled :
        (d : Capability) (e : DeviceCapability) → lookup d l ≡ some e → Settled (lookup d after)
    others : (d : Capability) → lookup d l ≡ none → lookup d after ≡ lookup d m

  -- After a round the registry holds the entries that the loop has still to visit.
  still_held :
      (r' : Registry) (c : Capability) (e : DeviceCapability)
      (l m : Store Capability DeviceCapability) (round : Round r' c m)
      → IsUnique ((c, e) ∷ l)
      → ((d : Capability) (x : DeviceCapability)
          → lookup d ((c, e) ∷ l) ≡ some x
          → lookup d m ≡ some x)
      → (d : Capability) (x : DeviceCapability) → lookup d l ≡ some x
      → lookup d round.after ≡ some x
  unfolding lookup
  still_held r' c e l m round u agree d x h = elim (capability_key.same c d) [
    | yes p ↦ cc (u.0, p, h)
    | no n ↦ round.others d n ∙ agree d x (ground (arith, h, n))
  ]

  cons-Done :
      (r' : Registry) (c : Capability) (e : DeviceCapability)
      (l m : Store Capability DeviceCapability) (r : Registry) (round : Round r c m)
      → lookup c l ≡ none
      → Done r' l round.after
      → Done r' ((c, e) ∷ l) m
  unfolding lookup
  cons-Done r' c e l m r round u rest = record {
    after = rest.after;
    stored = rest.stored;
    settled = λ d x h. elim (capability_key.same c d) [
      | yes p ↦
          subst (λ j. Settled (lookup j rest.after)) p
            (subst Settled (sym (rest.others c u)) round.settled)
      | no n ↦ rest.settled d x (ground (arith, h, n))
    ];
    others = λ d h. elim (capability_key.same c d) [
      | yes p ↦ ground (arith, p, h)
      | no n ↦ rest.others d (ground (arith, h, n)) ∙ round.others d n
    ];
  }

  loop-Done :
      (r : Registry) (l m : Store Capability DeviceCapability)
      → IsUnique l
      → Stored r k m
      → ((d : Capability) (e : DeviceCapability) → lookup d l ≡ some e → lookup d m ≡ some e)
      → Done (disconnect_loop r now k l) l m
  unfolding disconnect_loop lookup
  loop-Done r [] m u s agree = record {
    after = m;
    stored = s;
    settled = λ d e h. cc;
    others = λ d h. refl;
  }
  loop-Done r ((c, e) ∷ l) m u s agree =
      let round = entry-Round r c e m s (agree c e (ground arith)) in
      let r' = disconnect_entry r now k c e in
      cons-Done (disconnect_loop r' now k l) c e l m r' round u.0
        (loop-Done r' l round.after u.1 round.stored (still_held r' c e l m round u agree))

  disconnected-Done :
      (r : Registry)
      → IsUnique (entries_of r now k)
      → Done (mark_capabilities_disconnected r now k) (entries_of r now k) (entries_of r now k)
  unfolding mark_capabilities_disconnected
  disconnected-Done r u =
      loop-Done (ensure_capabilities_locked r now k) (entries_of r now k) (entries_of r now k) u
        (ground (arith, entries-ensure r now k k)) (λ d e h. h)

entry-health :
    (r : Registry) (now : Time) (k : Text) (c : Capability) (e : DeviceCapability)
    → (disconnect_entry r now k c e).health ≡ r.health
unfolding disconnect_entry
entry-health r now k c e =
    if_both (λ (x : Registry). x.health ≡ r.health) (not (same_state e.state unsupported))
      (Frame.same_health (set-Frame r now k c temporarily_unavailable device_disconnected)) refl

loop-health :
    (r : Registry) (now : Time) (k : Text) (l : Store Capability DeviceCapability)
    → (disconnect_loop r now k l).health ≡ r.health
unfolding disconnect_loop
loop-health r now k [] = refl
loop-health r now k ((c, e) ∷ l) =
    loop-health (disconnect_entry r now k c e) now k l ∙ entry-health r now k c e

disconnected-health :
    (r : Registry) (now : Time) (k : Text)
    → (mark_capabilities_disconnected r now k).health ≡ r.health
unfolding mark_capabilities_disconnected
disconnected-health r now k =
    loop-health (ensure_capabilities_locked r now k) now k (entries_of r now k)
    ∙ Frame.same_health (ensure-Frame r now k)

entries_of-set_monitoring :
    (r : Registry) (now : Time) (k : Text) (state : MonitoringState)
    → entries_of (set_monitoring r k state) now k ≡ entries_of r now k
unfolding set_monitoring entries_of fill_entries initial_entry locally_disabled
entries_of-set_monitoring r now k state = refl

abbrev ended : Registry → Time → Text → MonitoringState → Registry
ended r now k state = set_monitoring r k (disconnect_state now state)

-- The call for a connected device.
mark_disconnected-connected :
    (r : Registry) (now : Time) (ski : Text) (state : MonitoringState)
    → is_removed r (normalize_ski ski) ≡ false
    → lookup (normalize_ski ski) r.health.monitoring ≡ some state
    → state.connected ≡ true
    → mark_disconnected r now ski
      ≡ mark_capabilities_disconnected
          (ended r now (normalize_ski ski) state)
          now
          (normalize_ski ski)
unfolding mark_disconnected unless_removed
mark_disconnected-connected r now ski state e h t = ground (arith, e, h, t)

known-connection :
    (x : Registry) (ski : Text) (state : MonitoringState)
    → lookup (normalize_ski ski) x.health.monitoring ≡ some state
    → device_connection x ski ≡ (state.connected, state.last_transition_at, true)
unfolding device_connection
known-connection x ski state h = rw (h, device_connection) refl

ended-connection :
    (x r : Registry) (now : Time) (ski : Text) (state : MonitoringState)
    → x.health ≡ (ended r now (normalize_ski ski) state).health
    → device_connection x ski ≡ (false, now, true)
unfolding set_monitoring disconnect_state
ended-connection x r now ski state e =
    known-connection x ski (record state { connected = false; last_transition_at = now })
      (ap (λ (h : HealthStore). lookup (normalize_ski ski) h.monitoring) e
        ∙ lookup-insert_self (normalize_ski ski)
            (record state { connected = false; last_transition_at = now }) r.health.monitoring)

fitted :
    (local : Option Bool) (c : Capability) (o : Option DeviceCapability)
    → Fits local c o
    → (e : DeviceCapability) × (o ≡ some e)
fitted local c none f = absurd f
fitted local c (some e) f = (e, refl)

-- When the connection of a device ends that is not removed and that the registry knows as connected,
-- no capability of the device is left available: each is unsupported, or unavailable because the
-- device is disconnected, and the registry knows the device as disconnected since now. The registry
-- has an entry for every capability of a device that has entries, and each once.
pub mark_disconnected-Settled :
    (r : Registry) (now : Time) (ski : Text) (state : MonitoringState) (c : Capability)
    → Inv r
    → IsUnique (entries_of r now (normalize_ski ski))
    → is_removed r (normalize_ski ski) ≡ false
    → lookup (normalize_ski ski) r.health.monitoring ≡ some state
    → state.connected ≡ true
    → Settled (
        lookup c (
          or_zero []
            (lookup (normalize_ski ski) (mark_disconnected r now ski).capabilities.entries)))
      × (device_connection (mark_disconnected r now ski) ski ≡ (false, now, true))
mark_disconnected-Settled r now ski state c v u e h t =
    subst
      (λ (x : Registry).
        Settled (lookup c (or_zero [] (lookup k x.capabilities.entries)))
        × (device_connection x ski ≡ (false, now, true)))
      (sym (mark_disconnected-connected r now ski state e h t))
      (
        subst (λ o. Settled (lookup c (or_zero [] o))) (sym done.stored)
            (done.settled c found.0 (ap (lookup c) same ∙ found.1)),
        ended-connection (mark_capabilities_disconnected (ended r now k state) now k) r now ski
            state (disconnected-health (ended r now k state) now k),
      )
  where
    k : Text
    k = normalize_ski ski

    same : entries_of (ended r now k state) now k ≡ entries_of r now k
    same = entries_of-set_monitoring r now k (disconnect_state now state)

    done :
        Done now k
          (mark_capabilities_disconnected (ended r now k state) now k)
          (entries_of (ended r now k state) now k)
          (entries_of (ended r now k state) now k)
    done =
        disconnected-Done now k (ended r now k state)
          (subst (λ (m : Store Capability DeviceCapability). IsUnique m) (sym same) u)

    found : (x : DeviceCapability) × (lookup c (entries_of r now k) ≡ some x)
    found =
        fitted (lookup c r.capabilities.local_capabilities) c (lookup c (entries_of r now k))
          (entries_of-AllFit r now k v c)
