-- ===== src/Health/Loop.antt =====
-- healthcheck/healthcheck.go: `monitorTarget`, one goroutine's checks, timer and notifications,
-- and the goroutines that share one target across `DisableTarget` and `EnableTarget`.
pub mod Notifications
pub mod Overlap
use newt.Prelude.{
  ℕ, Bool, true, false, not, ◌&&◌, ◌||◌, List, [], ◌∷◌, ℤ, ◌==◌, int_eq, if◌then◌else◌,
}
use newt.Health.{Health, unknown, healthy, unhealthy, Target}
use newt.Health.Check.{Network, perform_health_check}

-- `armed` is the interval that the timer was last set to, in seconds; `reported` lists the status
-- of the target at each call of the callback, the latest first.
pub record Watch : Type 0 where
  pub target : Target
  pub interval : ℤ
  pub armed : ℤ
  pub reported : List Health

-- what the `select` finds ready: the timer, with the network's answers and the time, or `Done`
pub data Event : Type 0 where
  timer : Network → ℕ → Event
  done : Event

abbrev pub same_status : Health → Health → Bool
same_status unknown unknown = true
same_status healthy healthy = true
same_status unhealthy unhealthy = true
same_status _ _ = false

unfoldable pub interval_for : Target → ℤ
interval_for t = elim t.status [ unhealthy ↦ t.config.unhealthy_interval | _ ↦ t.config.interval ]

abbrev pub report : Bool → Bool → Health → List Health → List Health
report has_callback changed s rs = if changed && has_callback then s ∷ rs else rs

-- the part before the loop
unfoldable pub begin : Bool → Network → ℕ → Target → Watch
unfolding interval_for
begin has_callback net now t =
    let t' = perform_health_check net now t in
    record {
      target = t';
      interval = interval_for t';
      armed = interval_for t';
      reported =
          report has_callback (not (same_status t.status t'.status) || same_status t.status unknown)
            t'.status [];
    }

-- the case of the timer
unfoldable pub tick : Bool → Network → ℕ → Watch → Watch
unfolding interval_for
tick has_callback net now w =
    let t' = perform_health_check net now w.target in
    let new_interval = interval_for t' in
    let interval' = if new_interval == w.interval then w.interval else new_interval in
    record {
      target = t';
      interval = interval';
      armed = interval';
      reported =
          report has_callback (not (same_status w.target.status t'.status)) t'.status w.reported;
    }

-- the `for` loop over the events; the flag says whether the goroutine has returned
unfoldable pub loop : Bool → List Event → Watch → Watch × Bool
loop has_callback [] w = (w, false)
loop has_callback (done ∷ es) w = (w, true)
loop has_callback (timer net now ∷ es) w = loop has_callback es (tick has_callback net now w)
