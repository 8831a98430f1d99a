-- ===== src/Health/Check/Thresholds.antt =====
-- healthcheck/healthcheck.go: what the counters and thresholds of `performHealthCheck` amount to.
-- A history lists the checks of one target, the latest first.
use newt.Prelude.{
  ℕ, zero, suc, ◌≤◌, ◌<◌, ◌≡◌, refl, ◌≢◌, Bool, true, false, Option, none, some, List, [], ◌∷◌,
  arith, leb, pos, max_int, sym, ◌∙◌, length, take, All, if◌then◌else◌,
}
use newt.Health.{Health, unknown, healthy, unhealthy, CheckError, Target}
use newt.Health.Check.{Network, run_check, perform_health_check}

-- The target after the checks of a history.
abbrev pub after : Target → List (Network × ℕ) → Target
after t [] = t
after t ((net, now) ∷ older) = perform_health_check net now (after t older)

-- Whether each check of a history passed.
abbrev pub passed : Option CheckError → Bool
passed none = true
passed (some err) = false

abbrev pub outcomes : Target → List (Network × ℕ) → List Bool
outcomes t [] = []
outcomes t ((net, now) ∷ older) = passed (run_check net t.config t.client) ∷ outcomes t older

-- The number of latest checks that agree with `b`.
abbrev pub streak : Bool → List Bool → ℕ
streak b [] = 0
streak true (true ∷ older) = suc (streak true older)
streak false (false ∷ older) = suc (streak false older)
streak _ _ = 0

-- The status by the history alone: the latest check that completed a streak decides.
abbrev pub status_of : ℕ → ℕ → List Bool → Health
status_of h u [] = unknown
status_of h u (true ∷ older) =
    if leb h (suc (streak true older)) then healthy else status_of h u older
status_of h u (false ∷ older) =
    if leb u (suc (streak false older)) then unhealthy else status_of h u older

-- A target that no check has touched yet, as `addTargetUnsafe` makes it.
pub record IsFresh (t : Target) : Type 0 where
  pub status : t.status ≡ unknown
  pub successes : t.consecutive_successes ≡ pos 0
  pub failures : t.consecutive_failures ≡ pos 0

pub config-after : (t : Target) (hist : List (Network × ℕ)) → (after t hist).config ≡ t.config
unfolding perform_health_check
config-after t [] = refl
config-after t ((net, now) ∷ older) = ground (arith, config-after t older)

pub client-after : (t : Target) (hist : List (Network × ℕ)) → (after t hist).client ≡ t.client
unfolding perform_health_check
client-after t [] = refl
client-after t ((net, now) ∷ older) = ground (arith, client-after t older)

streak-le-length : (b : Bool) (rs : List Bool) → streak b rs ≤ length rs
streak-le-length true [] = omega arith
streak-le-length false [] = omega arith
streak-le-length true (true ∷ older) = omega (arith, streak-le-length true older)
streak-le-length true (false ∷ older) = omega arith
streak-le-length false (true ∷ older) = omega arith
streak-le-length false (false ∷ older) = omega (arith, streak-le-length false older)

length-outcomes : (t : Target) (hist : List (Network × ℕ)) → length (outcomes t hist) ≡ length hist
length-outcomes t [] = refl
length-outcomes t (e ∷ older) = omega (arith, length-outcomes t older)

module _ (t : Target) (fresh : IsFresh t) where
  -- The counters are the two streaks of the history.
  pub counters_eq_streaks :
      (hist : List (Network × ℕ))
      → length hist ≤ max_int
      → ((after t hist).consecutive_successes ≡ pos (streak true (outcomes t hist)))
        × ((after t hist).consecutive_failures ≡ pos (streak false (outcomes t hist)))
  unfolding perform_health_check
  counters_eq_streaks [] h = (fresh.successes, fresh.failures)
  counters_eq_streaks ((net, now) ∷ older) h = ground (
    arith,
    counters_eq_streaks older,
    config-after t older,
    client-after t older,
    streak-le-length true (outcomes t older),
    streak-le-length false (outcomes t older),
    length-outcomes t older,
  )

-- A check leaves the thresholds alone, and its outcome decides the status with the counters.
pub perform-status :
    (net : Network) (now : ℕ) (t : Target) (h u p f : ℕ)
    → t.config.healthy_threshold ≡ pos h
    → t.config.unhealthy_threshold ≡ pos u
    → t.consecutive_successes ≡ pos p
    → t.consecutive_failures ≡ pos f
    → p < max_int
    → f < max_int
    → (perform_health_check net now t).status ≡ (
        if passed (run_check net t.config t.client)
        then (if leb h (suc p) then healthy else t.status)
        else (if leb u (suc f) then unhealthy else t.status))
unfolding perform_health_check
perform-status net now t h u p f eh eu ep ef hp hf = ground arith

status_step :
    (t : Target) (fresh : IsFresh t) (h u : ℕ)
    → t.config.healthy_threshold ≡ pos h
    → t.config.unhealthy_threshold ≡ pos u
    → (net : Network) (now : ℕ) (older : List (Network × ℕ)) → suc (length older) ≤ max_int
    → (after t older).status ≡ status_of h u (outcomes t older)
    → (after t ((net, now) ∷ older)).status ≡ status_of h u (outcomes t ((net, now) ∷ older))
status_step t fresh h u eh eu net now older le ih =
    let (successes, failures) = counters_eq_streaks t fresh older (omega arith) in
    let c = config-after t older in
    let k = client-after t older in
    ground (
      arith,
      ih,
      c,
      k,
      perform-status net now (after t older) h u (streak true (outcomes t older))
          (streak false (outcomes t older)),
      successes,
      failures,
      streak-le-length true (outcomes t older),
      streak-le-length false (outcomes t older),
      length-outcomes t older,
    )

-- For a fresh target with natural thresholds, the status after any history of checks is the one
-- that the history alone determines, while the history is no longer than the largest `int`.
pub status-eq-status_of :
    (t : Target)
    → IsFresh t
    → (h u : ℕ) → t.config.healthy_threshold ≡ pos h
    → t.config.unhealthy_threshold ≡ pos u
    → (hist : List (Network × ℕ)) → length hist ≤ max_int
    → (after t hist).status ≡ status_of h u (outcomes t hist)
status-eq-status_of t fresh h u eh eu [] le = fresh.status
status-eq-status_of t fresh h u eh eu ((net, now) ∷ older) le =
    status_step t fresh h u eh eu net now older le
      (status-eq-status_of t fresh h u eh eu older (omega arith))

All-of_streak : (u : ℕ) (rs : List Bool) → u ≤ streak false rs → All (λ r. r ≡ false) (take u rs)
All-of_streak zero rs h = tt
All-of_streak (suc u) [] h = absurd (omega arith)
All-of_streak (suc u) (true ∷ rs) h = absurd (omega arith)
All-of_streak (suc u) (false ∷ rs) h = (refl, All-of_streak u rs (omega arith))

unhealthy_step :
    (h u : ℕ) (r : Bool) (older : List Bool)
    → status_of h u older ≢ unhealthy
    → status_of h u (r ∷ older) ≡ unhealthy
    → u ≤ streak false (r ∷ older)
unhealthy_step h u true older before now = ground arith
unhealthy_step h u false older before now = ground arith

-- A target turns unhealthy at a check only if that check and those before it, as many in all as
-- the unhealthy threshold says, have all failed.
pub unhealthy_needs_failures :
    (t : Target)
    → IsFresh t
    → (h u : ℕ) → t.config.healthy_threshold ≡ pos h
    → t.config.unhealthy_threshold ≡ pos u
    → (e : Network × ℕ) (older : List (Network × ℕ)) → length (e ∷ older) ≤ max_int
    → (after t older).status ≢ unhealthy
    → (after t (e ∷ older)).status ≡ unhealthy
    → (u ≤ length (e ∷ older)) × All (λ r. r ≡ false) (take u (outcomes t (e ∷ older)))
unhealthy_needs_failures t fresh h u eh eu (net, now) older le before now_unhealthy =
    let was = status-eq-status_of t fresh h u eh eu older (omega arith) in
    let is = status-eq-status_of t fresh h u eh eu ((net, now) ∷ older) le in
    let long =
      unhealthy_step h u (passed (run_check net t.config t.client)) (outcomes t older)
        (λ p. before (was ∙ p)) (sym is ∙ now_unhealthy) in
    (
      omega (
        arith,
        streak-le-length false (outcomes t ((net, now) ∷ older)),
        length-outcomes t ((net, now) ∷ older),
        long,
      ),
      All-of_streak u (outcomes t ((net, now) ∷ older)) long,
    )
