-- ===== src/UseCases/Entity/Unambiguous.antt =====
-- An entity is found for the device that was asked for, or for the only device there is.
use eebus_ha_bridge.Prelude.{
  ℕ, false, true, not, Option, none, some, List, [], ◌∷◌, ◌≡◌, refl, sym, subst, ◌⊎◌, inl, inr, All,
  Any, arith, Option-cases, Bool-cases, if_split, if◌then◌else◌,
}
use eebus_ha_bridge.Store.{Store, lookup, insert, is_some}
use eebus_ha_bridge.Store.Laws.{lookup-insert, lookup-insert_self}
use eebus_ha_bridge.Ski.{Text, text_key, eq_text, normalize_ski, is_empty}
use eebus_ha_bridge.Registry.Catalog.{EntityResolution}
use eebus_ha_bridge.Config.Overrides.Settings.{eq_text-true}
use eebus_ha_bridge.UseCases.Entity.{
  RemoteEntityScenarios, resolved, entity_of_device, entities_by_ski, only_entity,
  compatible_entity,
}

-- The entry, if it counts, is of the device `k`.
abbrev pub Of : Text → Option (Text × ℕ) → Type 0
Of k none = Unit
Of k (some found) = found.0 ≡ k

entity_of_device-Any :
    (want : Text) (l : List RemoteEntityScenarios) {e : ℕ}
    → (entity_of_device want l).entity ≡ some e
    → Any (λ r. resolved r ≡ some (want, e)) l
unfolding entity_of_device
entity_of_device-Any want [] h = cc
entity_of_device-Any want (r ∷ l) {e} h = elim (Option-cases (resolved r)) [
  | inl n ↦
      let h' : (entity_of_device want l).entity ≡ some e = rw (← h, n, entity_of_device) refl in
      inr (entity_of_device-Any want l h')
  | inr (f, n) ↦
      let h' : (if eq_text f.0 want
            then record { entity = some f.1; device_count = 1 }
            else entity_of_device want l).entity
          ≡ some e =
        rw (← h, n, entity_of_device) refl in
      elim (Bool-cases (eq_text f.0 want)) [
        | inl t ↦
            let h'' : some f.1 ≡ some e = rw (← h', t) refl in
            let same : f.0 ≡ want = eq_text-true _ _ t in inl (cc (n, same, h''))
        | inr t ↦
            let h'' : (entity_of_device want l).entity ≡ some e = rw (← h', t) refl in
            inr (entity_of_device-Any want l h'')
      ]
]

abbrev extended : Store Text ℕ → Text × ℕ → Store Text ℕ
extended m f = if is_some (lookup f.0 m) then m else insert f.0 f.1 m

lookup-extended :
    (j : Text) (v : ℕ) (m : Store Text ℕ) (f : Text × ℕ)
    → lookup j (extended m f) ≡ some v
    → (lookup j m ≡ some v) ⊎ (f ≡ (j, v))
lookup-extended j v m f h = ground (arith, lookup-insert f.0 j f.1 m)

extended-grows :
    (j : Text) (m : Store Text ℕ) (f : Text × ℕ)
    → is_some (lookup j m) ≡ true
    → is_some (lookup j (extended m f)) ≡ true
extended-grows j m f h = ground (arith, lookup-insert f.0 j f.1 m)

extended-has : (m : Store Text ℕ) (f : Text × ℕ) → is_some (lookup f.0 (extended m f)) ≡ true
extended-has m f = ground (arith, lookup-insert_self f.0 f.1 m)

entities_by_ski-Any :
    (m : Store Text ℕ) (l : List RemoteEntityScenarios) (j : Text) (v : ℕ)
    → lookup j (entities_by_ski m l) ≡ some v
    → (lookup j m ≡ some v) ⊎ Any (λ r. resolved r ≡ some (j, v)) l
unfolding entities_by_ski
entities_by_ski-Any m [] j v h = inl h
entities_by_ski-Any m (r ∷ l) j v h = elim (Option-cases (resolved r)) [
  | inl n ↦
      let h' : lookup j (entities_by_ski m l) ≡ some v = rw (← h, n, entities_by_ski) refl in
      elim (entities_by_ski-Any m l j v h') [ inl o ↦ inl o | inr a ↦ inr (inr a) ]
  | inr (f, n) ↦
      let h' : lookup j (entities_by_ski (extended m f) l) ≡ some v =
        rw (← h, n, entities_by_ski) refl in
      elim (entities_by_ski-Any (extended m f) l j v h') [
        | inr a ↦ inr (inr a)
        | inl o ↦ elim (lookup-extended j v m f o) [ inl p ↦ inl p | inr p ↦ inr (inl (cc)) ]
      ]
]

entities_by_ski-grows :
    (m : Store Text ℕ) (l : List RemoteEntityScenarios) (j : Text)
    → is_some (lookup j m) ≡ true
    → is_some (lookup j (entities_by_ski m l)) ≡ true
unfolding entities_by_ski
entities_by_ski-grows m [] j h = h
entities_by_ski-grows m (r ∷ l) j h = elim (Option-cases (resolved r)) [
  | inl n ↦ rw (n, entities_by_ski) (entities_by_ski-grows m l j h)
  | inr (f, n) ↦
      rw (n, entities_by_ski) (entities_by_ski-grows (extended m f) l j (extended-grows j m f h))
]

-- Every device of the list is in the map.
abbrev HasKey : Store Text ℕ → Option (Text × ℕ) → Type 0
HasKey m none = Unit
HasKey m (some f) = is_some (lookup f.0 m) ≡ true

entities_by_ski-All :
    (m final : Store Text ℕ) (l : List RemoteEntityScenarios)
    → entities_by_ski m l ≡ final
    → All (λ r. HasKey final (resolved r)) l
unfolding entities_by_ski
entities_by_ski-All m final [] h = tt
entities_by_ski-All m final (r ∷ l) h = elim (Option-cases (resolved r)) [
  | inl n ↦
      let h' : entities_by_ski m l ≡ final = rw (← h, n, entities_by_ski) refl in
      (subst (HasKey final) (sym n) tt, entities_by_ski-All m final l h')
  | inr (f, n) ↦
      let h' : entities_by_ski (extended m f) l ≡ final = rw (← h, n, entities_by_ski) refl in
      (
        subst (HasKey final) (sym n) (
            subst (λ (x : Store Text ℕ). is_some (lookup f.0 x) ≡ true) h'
              (entities_by_ski-grows (extended m f) l f.0 (extended-has m f))),
        entities_by_ski-All (extended m f) final l h',
      )
]

HasKey-Of : (k : Text) (e : ℕ) (o : Option (Text × ℕ)) → HasKey ((k, e) ∷ []) o → Of k o
unfolding lookup
HasKey-Of k e none h = tt
HasKey-Of k e (some f) h = ground arith

All-map :
    {P Q : RemoteEntityScenarios → Type 0} (l : List RemoteEntityScenarios)
    → ((r : RemoteEntityScenarios) → P r → Q r)
    → All P l
    → All Q l
All-map [] f a = tt
All-map (r ∷ l) f a = (f r a.0, All-map l f a.1)

-- The device asked for, where a SKI is given; where none is, the only device in the list.
abbrev pub IsMeant : Text → List RemoteEntityScenarios → Text → Type 0
IsMeant ski l device =
    ((is_empty (normalize_ski ski) ≡ false) × (device ≡ normalize_ski ski))
    ⊎ ((is_empty (normalize_ski ski) ≡ true) × All (λ r. Of device (resolved r)) l)

-- What is known of an entity that is found.
pub record IsFound (ski : Text) (l : List RemoteEntityScenarios) (e : ℕ) : Type 0 where
  pub device : Text
  pub listed : Any (λ r. resolved r ≡ some (device, e)) l
  pub meant : IsMeant ski l device

lookup_own : (k : Text) (v : ℕ) → lookup k ((k, v) ∷ []) ≡ some v
unfolding lookup
lookup_own k v = ground arith

nothing : (k : Text) {v : ℕ} → lookup {V = ℕ} k [] ≡ some v → ⊥
unfolding lookup
nothing k h = cc

single-IsFound :
    (ski : Text) (l : List RemoteEntityScenarios) (m : Store Text ℕ) {e : ℕ}
    → is_empty (normalize_ski ski) ≡ true
    → entities_by_ski [] l ≡ m
    → (only_entity m).entity ≡ some e
    → IsFound ski l e
unfolding only_entity
single-IsFound ski l [] none_given h o = cc
single-IsFound ski l ((k, v) ∷ []) {e} none_given h o =
    let all = entities_by_ski-All [] ((k, v) ∷ []) l h in
    let same : v ≡ e = cc in
    let here : lookup k (entities_by_ski [] l) ≡ some e = rw (h, same) (lookup_own k e) in
    record {
      device = k;
      listed = elim (entities_by_ski-Any [] l k e here) [
        | inl o' ↦ absurd (nothing k o')
        | inr a ↦ a
      ];
      meant = inr (none_given, All-map l (λ r. HasKey-Of k v (resolved r)) all);
    }
single-IsFound ski l (a ∷ b ∷ m) none_given h o = cc

-- An entity that compatibleEntity gives is in the list, under its normalized SKI. Where the request's
-- SKI is not empty after normalization, the entity is of the device with this SKI; only where it is
-- empty may it be of another, and then all entities in the list that have a device are of that one
-- device.
pub compatible_entity-IsFound :
    (l : List RemoteEntityScenarios) (ski : Text) {e : ℕ}
    → (compatible_entity l ski).entity ≡ some e
    → IsFound ski l e
unfolding compatible_entity
compatible_entity-IsFound l ski {e} h =
    if_split (λ (z : EntityResolution). z.entity ≡ some e → IsFound ski l e)
      (not (is_empty (normalize_ski ski))) {x = entity_of_device (normalize_ski ski) l}
      {y = only_entity (entities_by_ski [] l)}
      (λ given q. record {
        device = normalize_ski ski;
        listed = entity_of_device-Any (normalize_ski ski) l q;
        meant = inl (ground (arith, given), refl);
      })
      (λ given q. single-IsFound ski l (entities_by_ski [] l) (ground (arith, given)) refl q) h
