-- ===== src/Ping/Check/Recovery.antt =====
-- newt/ping.go: how often the recovery runs.
use newt.Prelude.{
  ℕ, suc, ◌+◌, ◌≡◌, refl, Bool, true, false, List, [], ◌∷◌, ◌++◌, arith, if◌then◌else◌, leb,
  is_some, ◌==◌, nat_eq, Option, Option-cases, inl, inr,
}
use newt.Ping.{Scaling, PingConfig}
use newt.Ping.Attempts.{PingFunc, reliable_ping}
use newt.Ping.Check.{
  CheckState, Effect, request_pings, register_again, remove_health_file, write_health_file,
  start_state, adaptive_timeout, max_attempts, on_failure, on_success, should_fire_recovery,
  ping_tick, run_ticks,
}

-- whether a tick's ping succeeds
abbrev pub succeeds : PingConfig → PingFunc → (ℕ → ℕ) → CheckState → Bool
succeeds c fn jitter st =
    is_some
      (reliable_ping fn jitter (adaptive_timeout c st.recent_latencies)
        (max_attempts st.consecutive_failures)).0

-- the results of a run's pings
abbrev pub results : Scaling → PingConfig → List (PingFunc × (ℕ → ℕ)) → CheckState → List Bool
results s c [] st = []
results s c ((fn, jitter) ∷ more) st =
    succeeds c fn jitter st ∷ results s c more (ping_tick s c fn jitter st).0

-- The failures in a row that reach the fourth, where `k` failures came just before.
abbrev pub outages : ℕ → List Bool → ℕ
outages k [] = 0
outages k (true ∷ l) = outages 0 l
outages k (false ∷ l) = (if k == 3 then 1 else 0) + outages (k + 1) l

-- how often the pings are requested again
abbrev pub recoveries : List Effect → ℕ
recoveries [] = 0
recoveries (request_pings ∷ l) = suc (recoveries l)
recoveries (_ ∷ l) = recoveries l

recoveries-append : (l m : List Effect) → recoveries (l ++ m) ≡ recoveries l + recoveries m
recoveries-append [] m = omega arith
recoveries-append (request_pings ∷ l) m = omega (arith, recoveries-append l m)
recoveries-append (register_again ∷ l) m = recoveries-append l m
recoveries-append (remove_health_file ∷ l) m = recoveries-append l m
recoveries-append (write_health_file ∷ l) m = recoveries-append l m

-- The connection counts as lost from the fourth failure on.
abbrev IsFlagged : CheckState → Type 0
IsFlagged st = st.connection_lost ≡ leb 4 st.consecutive_failures

module _ (s : Scaling) (c : PingConfig) where
  on_failure-recoveries :
      (t : ℕ) (st : CheckState)
      → IsFlagged st
      → (recoveries (on_failure s c t st).1 ≡ (if st.consecutive_failures == 3 then 1 else 0))
        × IsFlagged (on_failure s c t st).0
        × ((on_failure s c t st).0.consecutive_failures ≡ st.consecutive_failures + 1)
  unfolding on_failure should_fire_recovery
  on_failure-recoveries t st h = ground arith

  on_success-recoveries :
      (t : ℕ) (st : CheckState)
      → (recoveries (on_success s c t st).1 ≡ 0)
        × IsFlagged (on_success s c t st).0
        × ((on_success s c t st).0.consecutive_failures ≡ 0)
  unfolding on_success
  on_success-recoveries t st = ground arith

  ping_tick-recoveries :
      (fn : PingFunc) (jitter : ℕ → ℕ) (st : CheckState) (l : List Bool)
      → IsFlagged st
      → (recoveries (ping_tick s c fn jitter st).1
            + outages (ping_tick s c fn jitter st).0.consecutive_failures l
          ≡ outages st.consecutive_failures (succeeds c fn jitter st ∷ l))
        × IsFlagged (ping_tick s c fn jitter st).0
  unfolding ping_tick
  ping_tick-recoveries fn jitter st l h =
      let t = adaptive_timeout c st.recent_latencies in
      let result : Option ℕ =
        (reliable_ping fn jitter t (max_attempts st.consecutive_failures)).0 in
      elim (Option-cases result) [
        | inl e ↦ ground (arith, e, on_failure-recoveries t st)
        | inr (latency, e) ↦ ground (arith, e, on_success-recoveries latency st)
      ]

  run_ticks-recoveries :
      (ticks : List (PingFunc × (ℕ → ℕ))) (st : CheckState)
      → IsFlagged st
      → recoveries (run_ticks s c ticks st).1
        ≡ outages st.consecutive_failures (results s c ticks st)
  unfolding run_ticks
  run_ticks-recoveries [] st h = refl
  run_ticks-recoveries ((fn, jitter) ∷ more) st h =
      let step =
        ping_tick-recoveries fn jitter st (results s c more (ping_tick s c fn jitter st).0) h in
      let rest = run_ticks-recoveries more (ping_tick s c fn jitter st).0 step.1 in
      omega (
        arith,
        step.0,
        rest,
        recoveries-append (ping_tick s c fn jitter st).1
            (run_ticks s c more (ping_tick s c fn jitter st).0).1,
      )

  -- Over any ticks, the recovery runs once for each run of failures that reaches four, at its fourth
  -- failure, and never besides.
  pub run_ticks-recoveries_start :
      (ticks : List (PingFunc × (ℕ → ℕ)))
      → recoveries (run_ticks s c ticks (start_state c)).1
        ≡ outages 0 (results s c ticks (start_state c))
  unfolding start_state
  run_ticks-recoveries_start ticks = run_ticks-recoveries ticks (start_state c) refl
