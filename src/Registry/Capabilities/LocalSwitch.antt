-- ===== src/Registry/Capabilities/LocalSwitch.antt =====
-- SetLocalCapabilityEnabled: while its loop runs, the devices that it has not reached still show
-- the capability as it was, and the invariant holds of all else.
use eebus_ha_bridge.Prelude.{
  ◌≡◌, refl, ◌≢◌, [], ◌∷◌, Bool, Option, none, some, if◌then◌else◌, arith, ◌⊎◌, inl, inr,
  Option-cases, sym, subst,
}
use eebus_ha_bridge.Store.{Store, lookup, insert}
use eebus_ha_bridge.Store.Laws.{lookup-insert, lookup-insert_ne}
use eebus_ha_bridge.Ski.{Text, text_key}
use eebus_ha_bridge.Time.{Time}
use eebus_ha_bridge.Registry.State.{
  Capability, capability_key, CapabilityState, CapabilityReason, DeviceCapability, Registry,
}
use eebus_ha_bridge.Registry.State.{unknown, unsupported, local_disabled, unspecified}
use eebus_ha_bridge.Registry.Capabilities.{
  locally_disabled, initial_entry, entries_of, set_capability_locked, set_local_loop,
  set_local_capability_enabled,
}
use eebus_ha_bridge.Registry.Capabilities.Entries.{
  set-Frame, entries-set, written, lookup-fill_entries,
}
use eebus_ha_bridge.Registry.Capabilities.Invariant.{Fits, Inv, initial_entry-Fits}

abbrev Named : Capability → Option DeviceCapability → Type 0
Named c none = ⊥
Named c (some e) = e.id ≡ c

-- The devices of `l` wait for their new entry of `c`.
record Waiting (c : Capability) (l : Store Text (Store Capability DeviceCapability)) (r : Registry)
    : Type 0 where
  named :
      (ski : Text) (m : Store Capability DeviceCapability) (d : Capability)
      → lookup ski r.capabilities.entries ≡ some m
      → Named d (lookup d m)
  rest :
      (ski : Text) (m : Store Capability DeviceCapability) (d : Capability)
      → lookup ski r.capabilities.entries ≡ some m
      → (d ≢ c) ⊎ (lookup ski l ≡ none)
      → Fits (lookup d r.capabilities.local_capabilities) d (lookup d m)

Fits-Named :
    (b : Option Bool) (d : Capability) (o : Option DeviceCapability) → Fits b d o → Named d o
Fits-Named b d none h = h
Fits-Named b d (some e) h = h.0

written-Fits :
    (r : Registry) (now : Time) (ski : Text) (c d : Capability) (s : CapabilityState)
    (q : CapabilityReason)
    → Named c (lookup c (entries_of r now ski))
    → (d ≢ c
        → Fits (lookup d r.capabilities.local_capabilities) d (lookup d (entries_of r now ski)))
    → Fits (lookup d r.capabilities.local_capabilities) d (lookup d (written r now ski c s q))
unfolding locally_disabled
written-Fits r now ski c d s q n h = ground (
  arith,
  lookup-insert c d
      (record {
        id = c;
        state = if locally_disabled r c then unsupported else s;
        reason = if locally_disabled r c then local_disabled else q;
        last_changed = now;
      })
      (entries_of r now ski),
)

module _ (c : Capability) (l : Store Text (Store Capability DeviceCapability)) (now : Time)
    (ski : Text) (r : Registry) where
  entries_of-Named : Waiting c l r → (d : Capability) → Named d (lookup d (entries_of r now ski))
  unfolding entries_of
  entries_of-Named w d = elim (Option-cases (lookup ski r.capabilities.entries)) [
    | inl e ↦ rw e (
        rw (lookup-fill_entries r now d)
          (Fits-Named _ d (some (initial_entry r now d)) (initial_entry-Fits r now d)))
    | inr (m, e) ↦ rw e (w.named ski m d e)
  ]

  entries_of-Fits :
      Waiting c l r
      → (d : Capability) → d ≢ c
      → Fits (lookup d r.capabilities.local_capabilities) d (lookup d (entries_of r now ski))
  unfolding entries_of
  entries_of-Fits w d h = elim (Option-cases (lookup ski r.capabilities.entries)) [
    | inl e ↦ rw e (rw (lookup-fill_entries r now d) (initial_entry-Fits r now d))
    | inr (m, e) ↦ rw e (w.rest ski m d e (inl h))
  ]

missing_of_tail :
    {ski j : Text} (x : Store Capability DeviceCapability)
    (l : Store Text (Store Capability DeviceCapability))
    → ski ≢ j
    → lookup j l ≡ none
    → lookup j ((ski, x) ∷ l) ≡ none
unfolding lookup
missing_of_tail x l p h = ground arith

step-Waiting :
    (c : Capability) (x : Store Capability DeviceCapability)
    (l : Store Text (Store Capability DeviceCapability)) (now : Time) (ski : Text) (r : Registry)
    (s : CapabilityState) (q : CapabilityReason)
    → Waiting c ((ski, x) ∷ l) r
    → Waiting c l (set_capability_locked r now ski c s q)
step-Waiting c x l now ski r s q w = record { named = names; rest = others }
  where
    after : Registry
    after = set_capability_locked r now ski c s q

    fits :
        (d : Capability)
        → Fits (lookup d r.capabilities.local_capabilities) d (lookup d (written r now ski c s q))
    fits d =
        written-Fits r now ski c d s q (entries_of-Named c ((ski, x) ∷ l) now ski r w c)
          (entries_of-Fits c ((ski, x) ∷ l) now ski r w d)

    names :
        (j : Text) (m : Store Capability DeviceCapability) (d : Capability)
        → lookup j after.capabilities.entries ≡ some m
        → Named d (lookup d m)
    names j m d e = elim (text_key.same ski j) [
      | yes p ↦
          subst (λ y. Named d (lookup d y)) (ground (arith, entries-set r now ski j c s q))
            (Fits-Named _ d _ (fits d))
      | no p ↦ w.named j m d (ground (arith, entries-set r now ski j c s q))
    ]

    others :
        (j : Text) (m : Store Capability DeviceCapability) (d : Capability)
        → lookup j after.capabilities.entries ≡ some m
        → (d ≢ c) ⊎ (lookup j l ≡ none)
        → Fits (lookup d after.capabilities.local_capabilities) d (lookup d m)
    others j m d e o = rw (set-Frame r now ski c s q).same_locals (elim (text_key.same ski j) [
      | yes p ↦
          subst (λ y. Fits (lookup d r.capabilities.local_capabilities) d (lookup d y))
            (ground (arith, entries-set r now ski j c s q)) (fits d)
      | no p ↦
          w.rest j m d (ground (arith, entries-set r now ski j c s q))
            (elim o [ inl h ↦ inl h | inr h ↦ inr (missing_of_tail x l p h) ])
    ])

loop-Waiting :
    (c : Capability) (enabled : Bool) (now : Time)
    (l : Store Text (Store Capability DeviceCapability)) (r : Registry)
    → Waiting c l r
    → Waiting c [] (set_local_loop r now c enabled l)
unfolding set_local_loop
loop-Waiting c enabled now [] r w = w
loop-Waiting c enabled now ((ski, x) ∷ l) r w =
    loop-Waiting c enabled now l
      (set_capability_locked r now ski c (if enabled then unknown else unsupported)
        (if enabled then unspecified else local_disabled))
      (step-Waiting c x l now ski r _ _ w)

-- A switch of a capability keeps the invariant: all devices follow it.
pub set_local_capability_enabled-Inv :
    (r : Registry) (now : Time) (c : Capability) (enabled : Bool)
    → Inv r
    → Inv (set_local_capability_enabled r now c enabled)
unfolding set_local_capability_enabled lookup
set_local_capability_enabled-Inv r now c enabled v = record {
  fit = λ ski m h d. done.rest ski m d h (inr refl);
}
  where
    switched : Registry
    switched = record r {
      capabilities = record (r.capabilities) {
        local_capabilities = insert c enabled r.capabilities.local_capabilities;
      };
    }

    start : Waiting c r.capabilities.entries switched
    start = record {
      named = λ ski m d e. Fits-Named _ d _ (v.fit ski m e d);
      rest = λ ski m d e o. elim o [
        | inl h ↦
            rw (lookup-insert_ne c d enabled r.capabilities.local_capabilities (λ p. h (sym p)))
              (v.fit ski m e d)
        | inr h ↦ cc
      ];
    }

    done : Waiting c [] (set_local_loop switched now c enabled r.capabilities.entries)
    done = loop-Waiting c enabled now r.capabilities.entries switched start
