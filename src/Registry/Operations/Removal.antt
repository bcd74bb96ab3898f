-- ===== src/Registry/Operations/Removal.antt =====
-- A removed device stays removed, and the registry holds nothing of it, until it is trusted again.
use eebus_ha_bridge.Prelude.{
  ◌≡◌, ◌≢◌, refl, ap, subst, sym, ◌∙◌, [], ◌∷◌, List, Bool, true, false, none, some, arith,
  if◌then◌else◌, inl, inr, Bool-cases,
}
use eebus_ha_bridge.Store.{Store, lookup, insert, is_some}
use eebus_ha_bridge.Ski.{Text, text_key, normalize_ski}
use eebus_ha_bridge.Time.{Time}
use eebus_ha_bridge.Registry.State.{capability_key}
use eebus_ha_bridge.Registry.State.{Capability, DeviceCapability, Registry, is_removed}
use eebus_ha_bridge.Registry.Capabilities.{
  unless_removed, set_capability, record_capability_support, record_capability_source_support,
  record_capability_read, record_entity_not_bound, record_missing_entity,
}
use eebus_ha_bridge.Registry.State.{unsupported, unspecified}
use eebus_ha_bridge.Registry.Health.{
  set_monitoring, mark_connected, mark_trusted, mark_untrusted, mark_disconnected,
  record_monitoring_success, record_remote_heartbeat,
}
use eebus_ha_bridge.Registry.Catalog.{
  add_device, upsert_observation, upsert_device_classification, upsert_zone_label, remove_device,
  clear_entities, remove_entity_observation,
}
use eebus_ha_bridge.Registry.Operations.{
  Operation, trusts, removes, classifies, labels, drops, switches, apply, subject, IsStable,
  is_ordinary,
}
use eebus_ha_bridge.Registry.Operations.Touches.{Touches, set-Touches}
use eebus_ha_bridge.Registry.Capabilities.{
  set_local_loop, set_local_capability_enabled, set_capability_locked,
}
use eebus_ha_bridge.Registry.Capabilities.Entries.{set-Frame}
use eebus_ha_bridge.Registry.Operations.{run}
use eebus_ha_bridge.Registry.State.{unknown, local_disabled}
use eebus_ha_bridge.Registry.Operations.Isolation.{
  apply-Touches, trusts-view, removes-view, Touches-view, DeviceView, view,
}
use eebus_ha_bridge.Store.Laws.{lookup-insert_self, lookup-delete_self}

-- The view of a removed device.
abbrev pub nothing : DeviceView
nothing = record {
  device = none;
  monitoring = none;
  heartbeat_required = none;
  entries = none;
  support = none;
  removed = some tt;
}

-- Nothing is held of a device that is removed.
pub record IsClean (r : Registry) : Type 0 where
  pub clean : (k : Text) → is_removed r k ≡ true → view r k ≡ nothing

kept : (r r' : Registry) (k : Text) → is_removed r k ≡ true → unless_removed r k r' ≡ r
unfolding unless_removed
kept r r' k h = ground arith

-- A call that comes late, for a removed device, changes nothing.
pub apply_of_removed :
    (r : Registry) (now : Time) (op : Operation)
    → is_ordinary op ≡ true
    → is_removed r (subject op) ≡ true
    → apply r now op ≡ r
unfolding apply mark_connected mark_untrusted mark_disconnected record_monitoring_success
    record_remote_heartbeat clear_entities add_device upsert_observation
    upsert_device_classification upsert_zone_label remove_entity_observation set_capability
    record_capability_support record_capability_source_support record_capability_read
    record_entity_not_bound record_missing_entity
apply_of_removed r now (trusts ski) o h = cc
apply_of_removed r now (removes ski) o h = cc
apply_of_removed r now (switches c enabled) o h = cc
apply_of_removed r now (classifies ski b m s t f w) o h = ground arith
apply_of_removed r now (labels ski label) o h = ground arith
apply_of_removed r now (drops ski none) o h = refl
apply_of_removed r now (drops ski (some e)) o h = kept r _ _ h
apply_of_removed r now op o h = kept r _ _ h

removed_cases : (r : Registry) (k : Text) → is_removed r k ≡ true → lookup k r.removed ≡ some tt
unfolding is_removed
removed_cases r k h = ground arith

view_removed : (r s : Registry) (k : Text) → view s k ≡ view r k → is_removed s k ≡ is_removed r k
unfolding is_removed
view_removed r s k e = ap {A = DeviceView} (λ v. is_some v.removed) e

-- The switch writes to devices that have entries, and to nothing else.
absent_tail :
    (j ski : Text) (x : Store Capability DeviceCapability)
    (l : Store Text (Store Capability DeviceCapability))
    → lookup j ((ski, x) ∷ l) ≡ none
    → (ski ≢ j) × (lookup j l ≡ none)
unfolding lookup
absent_tail j ski x l h = ground arith

loop-view :
    (now : Time) (c : Capability) (enabled : Bool) (j : Text)
    (l : Store Text (Store Capability DeviceCapability)) (r : Registry)
    → lookup j l ≡ none
    → view (set_local_loop r now c enabled l) j ≡ view r j
unfolding set_local_loop
loop-view now c enabled j [] r h = refl
loop-view now c enabled j ((ski, x) ∷ l) r h =
    loop-view now c enabled j l step (absent_tail j ski x l h).1
    ∙ Touches-view j (set-Touches r now ski c _ _) (absent_tail j ski x l h).0
  where
    step : Registry
    step =
        set_capability_locked r now ski c (if enabled then unknown else unsupported)
          (if enabled then unspecified else local_disabled)

loop-removed :
    (now : Time) (c : Capability) (enabled : Bool)
    (l : Store Text (Store Capability DeviceCapability)) (r : Registry)
    → (set_local_loop r now c enabled l).removed ≡ r.removed
unfolding set_local_loop
loop-removed now c enabled [] r = refl
loop-removed now c enabled ((ski, x) ∷ l) r =
    loop-removed now c enabled l (set_capability_locked r now ski c _ _)
    ∙ (set-Frame r now ski c _ _).same_removed

-- The registry as the loop of the switch finds it.
abbrev switched : Registry → Capability → Bool → Registry
switched r c enabled = record r {
  capabilities = record (r.capabilities) {
    local_capabilities = insert c enabled r.capabilities.local_capabilities;
  };
}

switches-removed :
    (r : Registry) (now : Time) (c : Capability) (enabled : Bool)
    → (set_local_capability_enabled r now c enabled).removed ≡ r.removed
unfolding set_local_capability_enabled
switches-removed r now c enabled =
    loop-removed now c enabled r.capabilities.entries (switched r c enabled)

pub remove_device-view :
    (r : Registry) (ski : Text) → view (remove_device r ski) (normalize_ski ski) ≡ nothing
unfolding remove_device
remove_device-view r ski = cc (
  lookup-delete_self (normalize_ski ski) r.devices,
  lookup-delete_self (normalize_ski ski) r.health.monitoring,
  lookup-delete_self (normalize_ski ski) r.health.heartbeat_required,
  lookup-delete_self (normalize_ski ski) r.capabilities.entries,
  lookup-delete_self (normalize_ski ski) r.capabilities.support,
  lookup-insert_self (normalize_ski ski) tt r.removed,
)

remove_device-is_removed :
    (r : Registry) (ski : Text) → is_removed (remove_device r ski) (normalize_ski ski) ≡ true
unfolding is_removed
remove_device-is_removed r ski =
    ap {A = DeviceView} (λ v. is_some v.removed) (remove_device-view r ski)

module _ (r : Registry) (v : IsClean r) where
  -- Where the view of a removed device is kept, so is cleanness.
  carry :
      (s : Registry) (j : Text) → view s j ≡ view r j → is_removed s j ≡ true → view s j ≡ nothing
  carry s j e h = e ∙ v.clean j (sym (view_removed r s j e) ∙ h)

  touched-IsClean : (s : Registry) (k : Text) → Touches k r s → is_removed r k ≡ false → IsClean s
  unfolding is_removed
  touched-IsClean s k t f = record {
    clean = λ j h. elim (text_key.same k j) [
      | yes p ↦ cc (t.same_removed)
      | no p ↦ carry s j (Touches-view j t p) h
    ];
  }

  trusts-IsClean : (now : Time) (ski : Text) → IsClean (mark_trusted r now ski)
  unfolding is_removed mark_trusted set_monitoring
  trusts-IsClean now ski = record {
    clean = λ j h. elim (text_key.same (normalize_ski ski) j) [
      | yes p ↦ cc (lookup-delete_self (normalize_ski ski) r.removed)
      | no p ↦ carry (mark_trusted r now ski) j (trusts-view r now ski j p) h
    ];
  }

  removes-IsClean : (ski : Text) → IsClean (remove_device r ski)
  removes-IsClean ski = record {
    clean = λ j h. elim (text_key.same (normalize_ski ski) j) [
      | yes p ↦ subst (λ k. view (remove_device r ski) k ≡ nothing) p (remove_device-view r ski)
      | no p ↦ carry (remove_device r ski) j (removes-view r ski j p) h
    ];
  }

  switches-IsClean :
      (now : Time) (c : Capability) (enabled : Bool)
      → IsClean (set_local_capability_enabled r now c enabled)
  unfolding is_removed set_local_capability_enabled
  switches-IsClean now c enabled = record {
    clean = λ j h.
        let was : is_removed r j ≡ true =
          subst (λ m. is_some (lookup j m) ≡ true) (switches-removed r now c enabled) h in
        loop-view now c enabled j r.capabilities.entries (switched r c enabled)
          (ap {A = DeviceView} (λ w. w.entries) (v.clean j was))
        ∙ v.clean j was;
  }

  ordinary-IsClean :
      (now : Time) (op : Operation) → is_ordinary op ≡ true → IsStable op → IsClean (apply r now op)
  ordinary-IsClean now op o h = elim (Bool-cases (is_removed r (subject op))) [
    | inl e ↦ rw (apply_of_removed r now op o e) v
    | inr e ↦ touched-IsClean (apply r now op) (subject op) (apply-Touches r now op o h) e
  ]

  -- Every call with a stable key keeps the registry clean.
  pub apply-IsClean : (now : Time) (op : Operation) → IsStable op → IsClean (apply r now op)
  unfolding apply
  apply-IsClean now (trusts ski) h = trusts-IsClean now ski
  apply-IsClean now (removes ski) h = removes-IsClean ski
  apply-IsClean now (switches c enabled) h = switches-IsClean now c enabled
  apply-IsClean now op h = ordinary-IsClean now op refl h

abbrev pub AllStable : List (Time × Operation) → Type 0
AllStable [] = Unit
AllStable ((now, op) ∷ ops) = IsStable op × AllStable ops

-- A registry that holds nothing of any removed device, as a new one does, holds nothing of one after
-- any calls whose keys a second normalization does not change.
pub run-IsClean :
    (ops : List (Time × Operation)) (r : Registry) → IsClean r → AllStable ops → IsClean (run r ops)
unfolding run
run-IsClean [] r v h = v
run-IsClean ((now, op) ∷ ops) r v h =
    run-IsClean ops (apply r now op) (apply-IsClean r v now op h.0) h.1

-- No call restores the device of the key.
abbrev pub Restores : Text → Operation → Type 0
Restores k (trusts ski) = normalize_ski ski ≡ k
Restores k _ = ⊥

abbrev pub AllLate : Text → List (Time × Operation) → Type 0
AllLate k [] = Unit
AllLate k ((now, op) ∷ ops) = IsStable op × (¬ Restores k op) × AllLate k ops

apply-removed :
    (r : Registry) (now : Time) (op : Operation) (k : Text)
    → IsStable op
    → ¬ Restores k op
    → is_removed r k ≡ true
    → is_removed (apply r now op) k ≡ true
unfolding apply is_removed
apply-removed r now (trusts ski) k s n h =
    view_removed r (mark_trusted r now ski) k (trusts-view r now ski k n) ∙ h
apply-removed r now (removes ski) k s n h = elim (text_key.same (normalize_ski ski) k) [
  | yes p ↦
      subst (λ j. is_removed (remove_device r ski) j ≡ true) p (remove_device-is_removed r ski)
  | no p ↦ view_removed r (remove_device r ski) k (removes-view r ski k p) ∙ h
]
apply-removed r now (switches c enabled) k s n h = cc (switches-removed r now c enabled)
apply-removed r now op k s n h = cc (Touches.same_removed (apply-Touches r now op refl s))

run-removed :
    (ops : List (Time × Operation)) (r : Registry) (k : Text)
    → AllLate k ops
    → is_removed r k ≡ true
    → is_removed (run r ops) k ≡ true
unfolding run
run-removed [] r k l h = h
run-removed ((now, op) ∷ ops) r k l h =
    run-removed ops (apply r now op) k l.2 (apply-removed r now op k l.0 l.1 h)

late-AllStable : (k : Text) (ops : List (Time × Operation)) → AllLate k ops → AllStable ops
late-AllStable k [] l = tt
late-AllStable k ((now, op) ∷ ops) l = (l.0, late-AllStable k ops l.2)

-- In a registry that holds nothing of the devices removed before: after RemoveDevice no sequence of
-- calls, with keys that a second normalization does not change and with none that trusts the device
-- again, makes the registry hold anything of the device in any projection, but for the mark of its
-- removal.
pub run-remove_device :
    (r : Registry) (ski : Text) (ops : List (Time × Operation))
    → IsClean r
    → AllLate (normalize_ski ski) ops
    → view (run (remove_device r ski) ops) (normalize_ski ski) ≡ nothing
run-remove_device r ski ops v l =
    let gone : IsClean (remove_device r ski) = removes-IsClean r v ski in
    let end =
      run-IsClean ops (remove_device r ski) gone (late-AllStable (normalize_ski ski) ops l) in
    end.clean (normalize_ski ski)
      (run-removed ops (remove_device r ski) (normalize_ski ski) l (remove_device-is_removed r ski))
