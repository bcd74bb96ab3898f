-- ===== src/Grpc/Handler/Sent.antt =====
-- Which commands a handler sends.
use eebus_ha_bridge.Prelude.{
  ℕ, Bool, Option, none, some, List, [], ◌∷◌, ◌++◌, ◌≡◌, refl, ap, sym, ◌∙◌, All, Result, ok, err,
  if_both, if_split,
}
use eebus_ha_bridge.Ski.{Text}
use eebus_ha_bridge.Time.{Time}
use eebus_ha_bridge.Registry.State.{Registry, Capability}
use eebus_ha_bridge.Registry.Catalog.{EntityResolution, is_ambiguous}
use eebus_ha_bridge.Grpc.Status.{Status, normalize_read_ski}
use eebus_ha_bridge.Grpc.Errors.{UsecaseError}
use eebus_ha_bridge.Grpc.Handler.{
  Handler, ServiceState, continue_with, checked, ◌>>=◌, record_read, send,
  resolve_compatible_entity, resolve_compatible_entity_resolution, resolve_by, with_resolution,
  with_entity, without_resolver, not_resolved, entity_or_error,
}

All-++ : {A : Type 0} (P : A → Type 0) (l m : List A) → All P l → All P m → All P (l ++ m)
All-++ P [] m a b = b
All-++ P (x ∷ l) m a b = (a.0, All-++ P l m a.1 b)

-- What is known of an entity that is resolved.
pub record IsResolved (resolve : Option (Text → EntityResolution)) (ski : Text) (e : ℕ)
    : Type 0 where
  pub resolver : Text → EntityResolution
  pub present : resolve ≡ some resolver
  pub found : (resolver ski).entity ≡ some e

++_assoc : {A : Type 0} (l m n : List A) → (l ++ m) ++ n ≡ l ++ (m ++ n)
++_assoc [] m n = refl
++_assoc {A = A} (x ∷ l) m n = ap (λ (r : List A). x ∷ r) (++_assoc l m n)

entity_or_error-found : (o : Option ℕ) {e : ℕ} → entity_or_error o ≡ ok e → o ≡ some e
entity_or_error-found none h = cc
entity_or_error-found (some e) h = cc

abbrev entity_by : Option (Text → EntityResolution) → Text → Option ℕ
entity_by none ski = none
entity_by (some f) ski = (f ski).entity

-- The resolver that there is found the entity.
pub found_by :
    (f : Text → EntityResolution) (ski : Text) (e : ℕ)
    → IsResolved (some f) ski e
    → (f ski).entity ≡ some e
found_by f ski e i =
    ap (λ (o : Option (Text → EntityResolution)). entity_by o ski) i.present ∙ i.found

module _ {C : Type 0} where
  -- A call of a handler adds commands to those that were sent, and each of them is in `P`.
  pub record Sends {A : Type 0} (P : C → Type 0) (before : ServiceState C)
      (after : ServiceState C × Result Status A) : Type 0 where
    pub fresh : List C
    pub added : after.0.commands ≡ fresh ++ before.commands
    pub allowed : All P fresh

  pub nothing-Sends :
      {A : Type 0} (P : C → Type 0) (s : ServiceState C) (r : Result Status A) → Sends P s (s, r)
  nothing-Sends P s r = record { fresh = []; added = refl; allowed = tt }

  after-Sends :
      {A : Type 0} (P : C → Type 0) (s s' : ServiceState C) (x : ServiceState C × Result Status A)
      (l : List C)
      → s'.commands ≡ l ++ s.commands
      → All P l
      → Sends P s' x
      → Sends P s x
  after-Sends P s s' x l e a h = record {
    fresh = h.fresh ++ l;
    added = h.added ∙ ap (λ (c : List C). h.fresh ++ c) e ∙ sym (++_assoc h.fresh l s.commands);
    allowed = All-++ P h.fresh l h.allowed a;
  }

  pub continue-Sends :
      {A B : Type 0} (P : C → Type 0) (x : ServiceState C × Result Status A) (f : A → Handler C B)
      (s : ServiceState C)
      → Sends P s x
      → ((a : A) → x.1 ≡ ok a → Sends P x.0 (f a x.0))
      → Sends P s (continue_with x f)
  unfolding continue_with
  continue-Sends P (s', ok a) f s h k =
      after-Sends P s s' (f a s') h.fresh h.added h.allowed (k a refl)
  continue-Sends P (s', err e) f s h k = record {
    fresh = h.fresh;
    added = h.added;
    allowed = h.allowed;
  }

  pub checked-Sends :
      {A B : Type 0} (P : C → Type 0) (r : Result Status A) (f : A → Handler C B)
      (s : ServiceState C)
      → ((a : A) → r ≡ ok a → Sends P s (f a s))
      → Sends P s ((checked r >>= f) s)
  checked-Sends P r f s k = continue-Sends P (s, r) f s (nothing-Sends P s r) k

  pub send-Sends :
      (P : C → Type 0) (outcome : C → Option UsecaseError) (c : C) (s : ServiceState C)
      → P c
      → Sends P s (send outcome c s)
  unfolding send
  send-Sends P outcome c s p = record { fresh = c ∷ []; added = refl; allowed = (p, tt) }

  pub record_read-Sends :
      (P : C → Type 0) (now : Time) (ski : Text) (capability : Capability) (failed : Bool)
      (s : ServiceState C)
      → Sends P s (record_read now ski capability failed s)
  unfolding record_read
  record_read-Sends P now ski capability failed s = record {
    fresh = [];
    added = refl;
    allowed = tt;
  }

  not_resolved-Sends :
      (P : C → Type 0) (now : Time) (ski : Text) (capability : Capability) (s : ServiceState C)
      → Sends P s (not_resolved now ski capability s)
  not_resolved-Sends P now ski capability s = record { fresh = []; added = refl; allowed = tt }

  without_resolver-Sends :
      (P : C → Type 0) (now : Time) (ski : Text) (capability : Capability) (r : Option Registry)
      (s : ServiceState C)
      → Sends P s (without_resolver now ski capability r s)
  unfolding without_resolver
  without_resolver-Sends P now ski capability none s = nothing-Sends P s _
  without_resolver-Sends P now ski capability (some r) s = not_resolved-Sends P now ski capability s

  with_entity-Sends :
      (P : C → Type 0) (now : Time) (ski : Text) (capability : Capability) (r : EntityResolution)
      (o : Option ℕ) (s : ServiceState C)
      → Sends P s (with_entity now ski capability r o s)
  unfolding with_entity
  with_entity-Sends P now ski capability r none s = not_resolved-Sends P now ski capability s
  with_entity-Sends P now ski capability r (some e) s = nothing-Sends P s _

  resolve_by-Sends :
      (P : C → Type 0) (now : Time) (ski : Text) (capability : Capability)
      (resolve : Option (Text → EntityResolution)) (s : ServiceState C)
      → Sends P s (resolve_by now ski capability resolve s)
  unfolding resolve_by with_resolution
  resolve_by-Sends P now ski capability none s =
      without_resolver-Sends P now ski capability s.registry s
  resolve_by-Sends P now ski capability (some resolve) s =
      if_both (λ (m : Handler C EntityResolution). Sends P s (m s)) (is_ambiguous (resolve ski))
        (nothing-Sends P s _)
        (with_entity-Sends P now ski capability (resolve ski) (resolve ski).entity s)

  pub resolve_compatible_entity-Sends :
      (P : C → Type 0) (now : Time) (ski : Text) (capability : Capability)
      (resolve : Option (Text → EntityResolution)) (s : ServiceState C)
      → Sends P s (resolve_compatible_entity now ski capability resolve s)
  unfolding resolve_compatible_entity resolve_compatible_entity_resolution
  resolve_compatible_entity-Sends P now ski capability resolve s =
      continue-Sends P (resolve_compatible_entity_resolution now ski capability resolve s)
        (λ r. checked (entity_or_error r.entity)) s
        (checked-Sends P (normalize_read_ski ski) (λ _. resolve_by now ski capability resolve) s
          (λ _ _. resolve_by-Sends P now ski capability resolve s))
        (λ r _. nothing-Sends P _ (entity_or_error r.entity))

  with_entity-found :
      (now : Time) (ski : Text) (capability : Capability) (r : EntityResolution) (o : Option ℕ)
      (s : ServiceState C) {a : EntityResolution}
      → (with_entity now ski capability r o s).1 ≡ ok a
      → r ≡ a
  unfolding with_entity
  with_entity-found now ski capability r none s h = cc
  with_entity-found now ski capability r (some e) s h = cc

  without_resolver-fails :
      (now : Time) (ski : Text) (capability : Capability) (r : Option Registry) (s : ServiceState C)
      {a : EntityResolution}
      → (without_resolver now ski capability r s).1 ≡ ok a
      → ⊥
  unfolding without_resolver
  without_resolver-fails now ski capability none s h = cc
  without_resolver-fails now ski capability (some r) s h = cc

  resolve_by-found :
      (now : Time) (ski : Text) (capability : Capability)
      (resolve : Option (Text → EntityResolution)) (s : ServiceState C) {a : EntityResolution}
      {e : ℕ}
      → (resolve_by now ski capability resolve s).1 ≡ ok a
      → a.entity ≡ some e
      → IsResolved resolve ski e
  unfolding resolve_by with_resolution
  resolve_by-found now ski capability none s h k =
      absurd (without_resolver-fails now ski capability s.registry s h)
  resolve_by-found now ski capability (some resolve) s {a} {e} h k =
      if_split
        (λ (m : Handler C EntityResolution). (m s).1 ≡ ok a → IsResolved (some resolve) ski e)
        (is_ambiguous (resolve ski)) {x = checked _}
        {y = with_entity now ski capability (resolve ski) (resolve ski).entity} (λ _ q. cc)
        (λ _ q. record {
          resolver = resolve;
          present = refl;
          found =
              ap (λ (r : EntityResolution). r.entity)
                (with_entity-found now ski capability (resolve ski) (resolve ski).entity s q)
              ∙ k;
        })
        h

  -- A step after which there is no error had none before it.
  continue_with-found :
      {A B : Type 0} (x : ServiceState C × Result Status A) (f : A → Handler C B) {b : B}
      → (continue_with x f).1 ≡ ok b
      → (a : A) × (x.1 ≡ ok a) × ((f a x.0).1 ≡ ok b)
  unfolding continue_with
  continue_with-found (s, ok a) f h = (a, refl, h)
  continue_with-found (s, err e) f h = cc

  pub resolve_compatible_entity-found :
      (now : Time) (ski : Text) (capability : Capability)
      (resolve : Option (Text → EntityResolution)) (s : ServiceState C) {e : ℕ}
      → (resolve_compatible_entity now ski capability resolve s).1 ≡ ok e
      → IsResolved resolve ski e
  unfolding resolve_compatible_entity resolve_compatible_entity_resolution
  resolve_compatible_entity-found now ski capability resolve s h =
      let (a, p, q) =
        continue_with-found (resolve_compatible_entity_resolution now ski capability resolve s)
          (λ r. checked (entity_or_error r.entity)) h in
      let (_, _, p') =
        continue_with-found (s, normalize_read_ski ski) (λ _. resolve_by now ski capability resolve)
          p in
      resolve_by-found now ski capability resolve s p' (entity_or_error-found a.entity q)
