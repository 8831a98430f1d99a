-- ===== src/Holepunch/Worker/Stopping.antt =====
-- holepunch/holepunch.go: what `Stop` does to a goroutine at its `select`.
use newt.Prelude.{
  ℕ, ◌≡◌, ◌≢◌, refl, true, Option, none, some, arith, ◌⊎◌, inl, inr, beq_refl, ◌∙◌, nat_eq,
}
use newt.Holepunch.{Manager, stop, start, open_channels}
use newt.Holepunch.Worker.{
  Outside, Phase, Worker, Step, enter_select, take_stop, take_update, take_tick, is_ready,
}

-- Steps one after another.
pub data Reach (o : Outside) (s : Worker × Manager) : Worker × Manager → Type 0 where
  here : Reach o s s
  next : {t u : Worker × Manager} → Reach o s t → Step o t u → Reach o s u

-- The goroutine runs and listens to no channel.
abbrev IsDeaf : Worker × Manager → Type 0
IsDeaf s =
    (s.1.stop_chan ≡ none)
    × (s.1.update_chan ≡ none)
    × ((s.0.phase ≡ Phase.looping) ⊎ (s.0.phase ≡ Phase.waiting none none))

take_tick-channels :
    (o : Outside) (m : Manager) (w : Worker)
    → ((take_tick o m w).1.stop_chan ≡ m.stop_chan)
      × ((take_tick o m w).1.update_chan ≡ m.update_chan)
      × ((take_tick o m w).0.phase ≡ Phase.looping)
unfolding take_tick
take_tick-channels o m w = ground arith

Step-IsDeaf : {o : Outside} {s t : Worker × Manager} → Step o s t → IsDeaf s → IsDeaf t
unfolding enter_select
Step-IsDeaf (Step.begins w m at) d = ground arith
Step-IsDeaf (Step.selects w m at) d = (d.0, d.1, inr (ground arith))
Step-IsDeaf (Step.stops w m s u at ready) d = ground arith
Step-IsDeaf (Step.updates w m s u at ready) d = ground arith
Step-IsDeaf {o} (Step.ticks w m s u at) d =
    let k = take_tick-channels o m w in (k.0 ∙ d.0, k.1 ∙ d.1, inl k.2)

Reach-IsDeaf : {o : Outside} {s t : Worker × Manager} → Reach o s t → IsDeaf s → IsDeaf t
Reach-IsDeaf Reach.here d = d
Reach-IsDeaf (Reach.next r st) d = Step-IsDeaf st (Reach-IsDeaf r d)

stop-ready :
    (m : Manager) (s u : ℕ)
    → m.running ≡ true
    → m.stop_chan ≡ some s
    → m.update_chan ≡ some u
    → is_ready (stop m) (some u) ≡ true
unfolding stop
stop-ready m s u run hs hu = ground (arith, beq_refl u)

stop-channels :
    (m : Manager) → m.running ≡ true → ((stop m).stop_chan ≡ none) × ((stop m).update_chan ≡ none)
unfolding stop
stop-channels m run = ground arith

take_update-phase :
    (o : Outside) (u : Option ℕ) (m : Manager) (w : Worker)
    → ((take_update o u m w).1.stop_chan ≡ m.stop_chan)
      × ((take_update o u m w).1.update_chan ≡ m.update_chan)
      × ((take_update o u m w).0.phase ≡ Phase.looping)
unfolding take_update
take_update-phase o u m w = (refl, refl, refl)

-- The goroutine of a running manager waits at its `select` when Stop is called. The closed update
-- channel lets it go on with a refresh, and from there no steps of its own ever end it.
pub stop-may_not_end :
    (o : Outside) (w : Worker) (m : Manager) (s u : ℕ)
    → m.running ≡ true
    → m.stop_chan ≡ some s
    → m.update_chan ≡ some u
    → w.phase ≡ Phase.waiting (some s) (some u)
    → (after : Worker × Manager) × Step o (w, stop m) after
      × ((final : Worker × Manager) → Reach o after final → final.0.phase ≢ Phase.ended)
stop-may_not_end o w m s u run hs hu at =
    let k = take_update-phase o (some u) (stop m) w in
    let c = stop-channels m run in
    (
      take_update o (some u) (stop m) w,
      Step.updates w (stop m) (some s) (some u) at (stop-ready m s u run hs hu),
      λ final r ended. let d = Reach-IsDeaf r (k.0 ∙ c.0, k.1 ∙ c.1, inl k.2) in ground arith,
    )

-- A manager is stopped and started again before the goroutine of the first start has taken its stop
-- signal. When it takes it, the manager counts as stopped although the goroutine of the second start
-- runs: Stop then does nothing, and a third start succeeds.
pub take_stop-after_restart :
    (m : Manager) (w : Worker)
    → m.running ≡ true
    → let restarted = (start (stop m)).1 in
      let after = (take_stop restarted w).1 in
      ((start (stop m)).0 ≡ true)
      × (restarted.running ≡ true)
      × (stop after ≡ after)
      × ((start after).0 ≡ true)
unfolding stop start open_channels take_stop
take_stop-after_restart m w run = ground arith
