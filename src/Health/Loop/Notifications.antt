-- ===== src/Health/Loop/Notifications.antt =====
-- healthcheck/healthcheck.go: what the callback sees of one target, and how its timer is set.
use newt.Prelude.{ℕ, ◌≡◌, refl, true, List, [], ◌∷◌, arith, if◌then◌else◌, ap}
use newt.Health.{Health, unknown, Target}
use newt.Health.Check.{Network, perform_health_check}
use newt.Health.Check.Thresholds.{after}
use newt.Health.Loop.{Watch, Event, timer, same_status, interval_for, begin, tick, loop}

-- The status after each check of a history, the latest first.
abbrev pub statuses : Target → List (Network × ℕ) → List Health
statuses t [] = []
statuses t ((net, now) ∷ older) = (after t ((net, now) ∷ older)).status ∷ statuses t older

-- The statuses that differ from the one before, and the very first.
abbrev pub changes : List Health → List Health
changes [] = []
changes (s ∷ older) = elim older [
  | [] ↦ s ∷ []
  | r ∷ _ ↦ if same_status s r then changes older else s ∷ changes older
]

abbrev pub timers : List (Network × ℕ) → List Event
timers [] = []
timers ((net, now) ∷ es) = timer net now ∷ timers es

-- A history with later checks put before it.
abbrev pub onto : List (Network × ℕ) → List (Network × ℕ) → List (Network × ℕ)
onto [] hist = hist
onto (e ∷ es) hist = onto es (e ∷ hist)

-- The goroutine's state after the checks of `hist`, where the first checks `e` are the oldest.
pub record IsTracking (t : Target) (hist : List (Network × ℕ)) (w : Watch) : Type 0 where
  pub target : w.target ≡ after t hist
  pub interval : w.interval ≡ interval_for (after t hist)
  pub armed : w.armed ≡ interval_for (after t hist)
  pub reported : w.reported ≡ changes (statuses t hist)

begin-IsTracking :
    (t : Target) (net : Network) (now : ℕ)
    → t.status ≡ unknown
    → IsTracking t ((net, now) ∷ []) (begin true net now t)
unfolding begin
begin-IsTracking t net now u = record {
  target = refl;
  interval = refl;
  armed = refl;
  reported = ground arith;
}

tick-IsTracking :
    (t : Target) (e : Network × ℕ) (hist : List (Network × ℕ)) (net : Network) (now : ℕ) (w : Watch)
    → IsTracking t (e ∷ hist) w
    → IsTracking t ((net, now) ∷ e ∷ hist) (tick true net now w)
unfolding tick
tick-IsTracking t (net', now') hist net now w h = record {
  target = ap (perform_health_check net now) h.target;
  interval = rw h.target (ground (arith, h.interval));
  armed = rw h.target (ground (arith, h.interval));
  reported = rw (h.target, h.reported) (ground arith);
}

loop-IsTracking :
    (t : Target) (e : Network × ℕ) (hist es : List (Network × ℕ)) (w : Watch)
    → IsTracking t (e ∷ hist) w
    → IsTracking t (onto es (e ∷ hist)) (loop true (timers es) w).0
unfolding loop
loop-IsTracking t e hist [] w h = h
loop-IsTracking t e hist ((net, now) ∷ es) w h =
    loop-IsTracking t (net, now) (e ∷ hist) es (tick true net now w)
      (tick-IsTracking t e hist net now w h)

-- For a target of unknown status and any answers of the network: after the first check and any
-- number of timer ticks, the target is the one that those checks make of it, the timer was last
-- set to the interval for its status, and the callback was called for the first status and then
-- exactly for the statuses that differ from the one before.
pub monitoring-IsTracking :
    (t : Target) (net : Network) (now : ℕ) (es : List (Network × ℕ))
    → t.status ≡ unknown
    → IsTracking t (onto es ((net, now) ∷ [])) (loop true (timers es) (begin true net now t)).0
monitoring-IsTracking t net now es u =
    loop-IsTracking t (net, now) [] es (begin true net now t) (begin-IsTracking t net now u)
