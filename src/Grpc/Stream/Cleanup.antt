-- ===== src/Grpc/Stream/Cleanup.antt =====
-- The deferred Unsubscribe: an ended stream leaves no subscriber behind.
use eebus_ha_bridge.Prelude.{
  ℕ, ◌≡◌, List, [], ◌∷◌, Bool, none, Option, if_both, inl, inr, Option-cases,
}
use eebus_ha_bridge.Store.{lookup}
use eebus_ha_bridge.Store.Laws.{lookup-delete_self}
use eebus_ha_bridge.Ski.{nat_key}
use eebus_ha_bridge.Time.{Time}
use eebus_ha_bridge.Bus.{Bus, Event, unsubscribe}
use eebus_ha_bridge.Bus.Rising.{run}
use eebus_ha_bridge.Grpc.Stream.{
  Round, sent, skipped, waiting, closed_stream, Schedule, Opened, after_round, loop,
  revisioned_loop, revisioned_round,
}

abbrev pub IsGone : ℕ → Bus → Type 0
IsGone ch b = lookup ch b.subscribers ≡ none

unsubscribe-IsGone : (b : Bus) (ch : ℕ) → IsGone ch (unsubscribe b ch)
unfolding unsubscribe
unsubscribe-IsGone b ch = elim (Option-cases (lookup ch b.subscribers)) [
  | inl e ↦ rw (e, unsubscribe) e
  | inr (s, e) ↦ rw (e, unsubscribe) (lookup-delete_self ch b.subscribers)
]

module _ {T : Type 0} (send : T → Bool) (ch : ℕ) where
  after_round-IsGone :
      (b : Bus) (r : Round T) (rest : Bus × List T)
      → IsGone ch rest.0
      → IsGone ch (after_round send ch b r rest).0
  unfolding after_round
  after_round-IsGone b (sent t) rest gone =
      if_both (λ (z : Bus × List T). IsGone ch z.0) (send t) {x = (rest.0, t ∷ rest.1)}
        {y = (unsubscribe b ch, t ∷ [])} gone (unsubscribe-IsGone b ch)
  after_round-IsGone b closed_stream rest gone = unsubscribe-IsGone b ch
  after_round-IsGone b skipped rest gone = gone
  after_round-IsGone b waiting rest gone = gone

  pub loop-IsGone :
      (round : Bus → Time → ℕ → Bus × Round T) (l : Schedule) (b : Bus)
      → IsGone ch (loop round send l b ch).0
  unfolding loop
  loop-IsGone round [] b = unsubscribe-IsGone b ch
  loop-IsGone round ((calls, now) ∷ l) b =
      after_round-IsGone (round (run b calls) now ch).0 (round (run b calls) now ch).1
        (loop round send l (round (run b calls) now ch).0 ch)
        (loop-IsGone round l (round (run b calls) now ch).0)

-- When a stream ends, by an error of the client, a closed channel or a done context, the bus has
-- no subscriber under its channel any more.
pub revisioned_loop-unsubscribe :
    {T : Type 0} (convert : Event → Option T) (send : T → Bool) (l : Schedule) (o : Opened T)
    → lookup o.channel (revisioned_loop convert send l o).0.subscribers ≡ none
unfolding revisioned_loop
revisioned_loop-unsubscribe {T} convert send l o =
    if_both (λ (z : Bus × List T). lookup o.channel z.0.subscribers ≡ none) (send o.first)
      {x = (
        (loop (revisioned_round convert) send l o.bus o.channel).0,
        o.first ∷ (loop (revisioned_round convert) send l o.bus o.channel).1,
      )}
      {y = (unsubscribe o.bus o.channel, o.first ∷ [])}
      (loop-IsGone send o.channel (revisioned_round convert) l o.bus)
      (unsubscribe-IsGone o.bus o.channel)
