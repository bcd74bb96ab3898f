-- ===== src/Providers/Closed.antt =====
-- After Close a provider does nothing.
use eebus_ha_bridge.Prelude.{
  ℕ, Bool, true, false, Option, List, [], ◌∷◌, ◌≡◌, refl, ap, ◌∙◌, inl, inr, Option-cases, arith,
}
use eebus_ha_bridge.Time.{Time}
use eebus_ha_bridge.ProviderSnapshot.{ProviderSnapshotStore, should_expire, close, is_closed}
use eebus_ha_bridge.Providers.{
  Provider, ProviderKind, MeasurementData, set_available, publish_if_open, publish_snapshot,
  expire_snapshot, close_provider, is_valid_at,
}
use eebus_ha_bridge.Providers.Runs.{Operation, publishes, pushes, expires, closes, push, apply, run}

record IsClosed {W S : Type 0} (p : Provider W S) : Type 0 where
  pub closed : p.snapshots.closed ≡ true
  pub known : p.available.known ≡ true
  pub withdrawn : p.available.available ≡ false

close-closed : {T : Type 0} (s : ProviderSnapshotStore T) → (close s).closed ≡ true
unfolding close
close-closed s = ground arith

set_available-withdrawn :
    {W S : Type 0} (p : Provider W S) (s : ProviderSnapshotStore S)
    → s.closed ≡ true
    → IsClosed (record p { snapshots = s; available = set_available false p.available })
unfolding set_available
set_available-withdrawn p s e = record {
  closed = e;
  known = ground arith;
  withdrawn = ground arith;
}

should_expire-closed :
    {T : Type 0} (s : ProviderSnapshotStore T) (v : ℕ) (now : Time) (valid : T → Time → Bool)
    → s.closed ≡ true
    → should_expire s v now valid ≡ false
unfolding should_expire
should_expire-closed s v now valid h = elim (Option-cases s.snapshot) [
  | inl e ↦ rw (e, should_expire) refl
  | inr (x, e) ↦ rw (e, h, should_expire) refl
]

module _ {W F E S : Type 0} (update : W → List (MeasurementData F) → W × Option E)
    (kind : ProviderKind F S) where
  apply-IsClosed : (p : Provider W S) (op : Operation F S) → IsClosed p → apply update kind p op ≡ p
  unfolding apply publish_snapshot push publish_if_open is_closed expire_snapshot close_provider
      close set_available
  apply-IsClosed p (publishes now s) c = rw (c.closed) refl
  apply-IsClosed p (pushes id value) c = rw (c.closed) refl
  apply-IsClosed p (expires v now) c =
      rw (should_expire-closed p.snapshots v now (is_valid_at update kind) c.closed) refl
  apply-IsClosed p closes c = rw (c.closed, c.known, c.withdrawn) refl

  run-IsClosed :
      (p : Provider W S) (ops : List (Operation F S)) → IsClosed p → run update kind p ops ≡ p
  unfolding run
  run-IsClosed p [] c = refl
  run-IsClosed p (op ∷ ops) c =
      ap (λ q. run update kind q ops) (apply-IsClosed p op c) ∙ run-IsClosed p ops c

  -- After Close, no sequence of calls of publish, expire and close changes a provider or its
  -- server any more.
  pub run-close_provider :
      (p : Provider W S) (ops : List (Operation F S))
      → run update kind (close_provider update kind p) ops ≡ close_provider update kind p
  unfolding close_provider
  run-close_provider p ops =
      run-IsClosed _ ops (set_available-withdrawn p (close p.snapshots) (close-closed p.snapshots))
