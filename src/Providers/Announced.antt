-- ===== src/Providers/Announced.antt =====
-- What the network is told of a provider: its availability follows its sample.
use eebus_ha_bridge.Prelude.{
  not-false, ℕ, Bool, true, false, not, ◌&&◌, Option, none, some, List, [], ◌∷◌, ◌≡◌, ◌≢◌, refl,
  sym, arith, if_both, if_split, inl, inr, Bool-cases, Option-cases, ◌==◌,
}
use eebus_ha_bridge.Store.{is_some}
use eebus_ha_bridge.Time.{Time}
use eebus_ha_bridge.ProviderSnapshot.{
  ProviderSnapshotStore, new_store, commit, invalidate, should_expire, clear_expired, close,
  is_closed,
}
use eebus_ha_bridge.Providers.Runs.{Operation, publishes, pushes, expires, closes, push, apply, run}
use eebus_ha_bridge.Providers.{
  Provider, ProviderKind, ProviderAvailability, MeasurementData, PublishError, set_available,
  publish_data, publish_values, publish_value, invalidate_values, publish_if_open, publish_snapshot,
  after_invalid, after_valid, expire_snapshot, after_expiry, close_provider, new_provider,
  add_use_case, same_flag, is_valid_at, bind,
}

-- No flag is told twice in a row.
pub Alternates : List Bool → Type 0
Alternates [] = Unit
Alternates (b ∷ []) = Unit
Alternates (b ∷ c ∷ l) = (b ≢ c) × Alternates (c ∷ l)

pub newest : List Bool → Option Bool
newest [] = none
newest (b ∷ l) = some b

pub record Announces (has_sample : Bool) (a : ProviderAvailability) : Type 0 where
  pub bound : a.bound ≡ true
  pub agrees : a.available ≡ has_sample
  pub told : newest a.announced ≡ some a.available
  pub known : a.known ≡ true
  pub alternates : Alternates a.announced

same_flag-true : (a b : Bool) → same_flag a b ≡ true → a ≡ b
same_flag-true true b h = sym h
same_flag-true false true h = cc
same_flag-true false false h = refl

same_flag-false : (a b : Bool) → same_flag a b ≡ false → b ≢ a
same_flag-false true true h e = cc
same_flag-false true false h e = cc
same_flag-false false true h e = cc
same_flag-false false false h e = cc

Alternates-cons :
    (b x : Bool) (l : List Bool) → newest l ≡ some x → b ≢ x → Alternates l → Alternates (b ∷ l)
unfolding Alternates newest
Alternates-cons b x [] n d a = tt
Alternates-cons b x (y ∷ l) n d a = (λ e. d (cc), a)

set_available-Announces :
    (b has_sample : Bool) (a : ProviderAvailability)
    → Announces has_sample a
    → Announces b (set_available b a)
unfolding set_available newest
set_available-Announces b has_sample a h = elim (Bool-cases (same_flag a.available b)) [
  | inl e ↦
      rw (h.known, e, set_available)
        (record {
          bound = h.bound;
          agrees = same_flag-true _ _ e;
          told = h.told;
          known = refl;
          alternates = h.alternates;
        })
  | inr e ↦
      rw (h.known, e, h.bound, set_available)
        (record {
          bound = refl;
          agrees = refl;
          told = refl;
          known = refl;
          alternates =
              Alternates-cons b a.available a.announced h.told (same_flag-false _ _ e) h.alternates;
        })
]

-- The provider tells that it is available exactly when it holds a sample.
pub record IsAnnounced {W S : Type 0} (p : Provider W S) : Type 0 where
  pub announces : Announces (is_some p.snapshots.snapshot) p.available
  pub emptied : p.snapshots.closed ≡ true → p.snapshots.snapshot ≡ none

should_expire-clears :
    {T : Type 0} (s : ProviderSnapshotStore T) (v : ℕ) (now : Time) (valid : T → Time → Bool)
    → should_expire s v now valid ≡ true
    → (clear_expired s v).snapshot ≡ none
unfolding should_expire clear_expired
should_expire-clears s v now valid h = elim (Option-cases s.snapshot) [
  | inl e ↦ let h' : false ≡ true = rw (← h, e, should_expire) refl in cc
  | inr (x, e) ↦
      let h' : (not s.closed && s.version == v && not (valid x now)) ≡ true =
        rw (← h, e, should_expire) refl in
      ground (arith, h', e)
]

close-snapshot :
    {T : Type 0} (s : ProviderSnapshotStore T)
    → (s.closed ≡ true → s.snapshot ≡ none)
    → (close s).snapshot ≡ none
unfolding close
close-snapshot s h = ground (arith, h)

-- Taking the flag back, with a store that holds nothing.
take_back :
    {W S : Type 0} (p : Provider W S) (s : ProviderSnapshotStore S)
    → s.snapshot ≡ none
    → IsAnnounced p
    → IsAnnounced (record p { snapshots = s; available = set_available false p.available })
take_back p s e h = record {
  announces = rw e (set_available-Announces false _ p.available h.announces);
  emptied = λ _. e;
}

module _ {W F E S : Type 0} (update : W → List (MeasurementData F) → W × Option E) where
  -- A write to the server leaves sample and availability alone.
  record Keeps (p : Provider W S) (z : Provider W S × Option (PublishError E)) : Type 0 where
    pub snapshots : z.0.snapshots ≡ p.snapshots
    pub available : z.0.available ≡ p.available

  publish_data-Keeps :
      (p : Provider W S) (d : Option (List (MeasurementData F))) → Keeps p (publish_data update p d)
  unfolding publish_data
  publish_data-Keeps p none = record { snapshots = refl; available = refl }
  publish_data-Keeps p (some l) = elim (Option-cases p.meas) [
    | inl e ↦ rw (e, publish_data) (record { snapshots = refl; available = refl })
    | inr (w, e) ↦ rw (e, publish_data) (record { snapshots = refl; available = refl })
  ]

  Keeps-IsAnnounced :
      (p q : Provider W S)
      → q.snapshots ≡ p.snapshots
      → q.available ≡ p.available
      → IsAnnounced p
      → IsAnnounced q
  Keeps-IsAnnounced p q e f h = record {
    announces = rw (e, f) h.announces;
    emptied = rw e h.emptied;
  }

  module _ (kind : ProviderKind F S) where
    after_invalid-IsAnnounced :
        (p : Provider W S) (z : Provider W S × Option (PublishError E))
        → Keeps p z
        → p.snapshots.closed ≡ false
        → IsAnnounced p
        → IsAnnounced (after_invalid update kind z).0
    unfolding after_invalid invalidate
    after_invalid-IsAnnounced p (q, some e) k open_ h =
        Keeps-IsAnnounced p q k.snapshots k.available h
    after_invalid-IsAnnounced p (q, none) k open_ h =
        take_back q (invalidate q.snapshots).0 (rw (k.snapshots, open_, invalidate) refl)
          (Keeps-IsAnnounced p q k.snapshots k.available h)

    after_valid-IsAnnounced :
        (p : Provider W S) (now : Time) (s : S) (z : Provider W S × Option (PublishError E))
        → Keeps p z
        → p.snapshots.closed ≡ false
        → IsAnnounced p
        → IsAnnounced (after_valid update kind now s z).0
    unfolding after_valid commit
    after_valid-IsAnnounced p now s (q, some e) k open_ h =
        Keeps-IsAnnounced p q k.snapshots k.available h
    after_valid-IsAnnounced p now s (q, none) k open_ h = record {
      announces =
          rw (k.snapshots, open_, commit)
            (set_available-Announces true _ q.available
              (Keeps-IsAnnounced p q k.snapshots k.available h).announces);
      emptied = rw (k.snapshots, open_, commit) (λ e. absurd (cc));
    }

    publish_snapshot-IsAnnounced :
        (p : Provider W S) (now : Time) (s : S)
        → IsAnnounced p
        → IsAnnounced (publish_snapshot update kind p now s).0
    unfolding publish_snapshot is_closed publish_values invalidate_values
    publish_snapshot-IsAnnounced p now s h =
        if_split Told p.snapshots.closed (λ _. h)
          (λ open_.
            if_both Told (kind.validity s).invalid
              (after_invalid-IsAnnounced p _ (publish_data-Keeps p _) open_ h)
              (after_valid-IsAnnounced p now s _ (publish_data-Keeps p _) open_ h))
      where
        Told : Provider W S × Option (PublishError E) → Type 0
        Told z = IsAnnounced z.0

    after_expiry-IsAnnounced :
        (p : Provider W S) (v : ℕ) (z : Provider W S × Option (PublishError E))
        → Keeps p z
        → (clear_expired p.snapshots v).snapshot ≡ none
        → IsAnnounced p
        → IsAnnounced (after_expiry update kind v z)
    unfolding after_expiry
    after_expiry-IsAnnounced p v (q, some e) k cleared h =
        Keeps-IsAnnounced p q k.snapshots k.available h
    after_expiry-IsAnnounced p v (q, none) k cleared h =
        take_back q (clear_expired q.snapshots v) (rw (k.snapshots) cleared)
          (Keeps-IsAnnounced p q k.snapshots k.available h)

    expire_snapshot-IsAnnounced :
        (p : Provider W S) (v : ℕ) (now : Time)
        → IsAnnounced p
        → IsAnnounced (expire_snapshot update kind p v now)
    unfolding expire_snapshot publish_values invalidate_values
    expire_snapshot-IsAnnounced p v now h =
        if_split (λ (q : Provider W S). IsAnnounced q)
          (not (should_expire p.snapshots v now (is_valid_at update kind))) (λ _. h)
          (λ e.
            after_expiry-IsAnnounced p v _ (publish_data-Keeps p _)
              (should_expire-clears p.snapshots v now (is_valid_at update kind) (not-false _ e)) h)

    close_provider-IsAnnounced :
        (p : Provider W S) → IsAnnounced p → IsAnnounced (close_provider update kind p)
    unfolding close_provider
    close_provider-IsAnnounced p h =
        take_back p (close p.snapshots) (close-snapshot p.snapshots h.emptied) h

    pushes-IsAnnounced :
        (p : Provider W S) (id : Option ℕ) (value : F)
        → IsAnnounced p
        → IsAnnounced (push update p id value)
    unfolding push publish_if_open publish_value publish_values is_closed
    pushes-IsAnnounced p id value h =
        if_both (λ (z : Provider W S × Option (PublishError E)). IsAnnounced z.0) p.snapshots.closed
          h
          (Keeps-IsAnnounced p _ (publish_data-Keeps p _).snapshots
            (publish_data-Keeps p _).available h)

    apply-IsAnnounced :
        (p : Provider W S) (op : Operation F S)
        → IsAnnounced p
        → IsAnnounced (apply update kind p op)
    unfolding apply
    apply-IsAnnounced p (publishes now s) h = publish_snapshot-IsAnnounced p now s h
    apply-IsAnnounced p (pushes id value) h = pushes-IsAnnounced p id value h
    apply-IsAnnounced p (expires v now) h = expire_snapshot-IsAnnounced p v now h
    apply-IsAnnounced p closes h = close_provider-IsAnnounced p h

    run-IsAnnounced :
        (p : Provider W S) (ops : List (Operation F S))
        → IsAnnounced p
        → IsAnnounced (run update kind p ops)
    unfolding run
    run-IsAnnounced p [] h = h
    run-IsAnnounced p (op ∷ ops) h =
        run-IsAnnounced (apply update kind p op) ops (apply-IsAnnounced p op h)

    -- After AddUseCase and any calls of publish, expire and close, for every server that takes or
    -- refuses the writes, a provider is announced as available exactly when it holds a sample, the
    -- last announcement is the current one, no two successive announcements are the same, and a
    -- closed provider holds no sample.
    pub run-add_use_case :
        (meas : Option W) (ops : List (Operation F S))
        → IsAnnounced (run update kind (record (add_use_case new_provider) { meas = meas }) ops)
    unfolding add_use_case new_provider new_store set_available bind newest Alternates
    run-add_use_case meas ops = run-IsAnnounced _ ops (record {
      announces = record {
        bound = refl;
        agrees = refl;
        told = refl;
        known = refl;
        alternates = tt;
      };
      emptied = λ _. refl;
    })
