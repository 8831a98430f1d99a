-- ===== src/Ping/Check/Interval.antt =====
-- newt/ping.go: the interval between pings, and the timeout of a ping.
use newt.Prelude.{
  ℕ, ◌*◌, ◌-◌, ◌≤◌, ◌≡◌, refl, Bool, true, false, List, [], ◌∷◌, ◌++◌, arith, Option, Option-cases,
  inl, inr, min, max, length, length-append, length-drop, All, ◌∙◌, ◌⊎◌,
}
use newt.Ping.{second, Scaling, PingConfig}
use newt.Ping.Attempts.{PingFunc, reliable_ping}
use newt.Ping.Check.{
  CheckState, start_state, adaptive_timeout, max_attempts, max_interval, on_failure, on_success,
  grown_interval, shrunk_interval, remember, ping_tick, run_ticks,
}
use newt.Ping.Check.Recovery.{results, succeeds}

-- What the pings' state keeps to: the ticker's period lies between the configured interval and the
-- current one, this is at most six seconds or the configured one, and ten latencies are kept.
pub record IsBounded (c : PingConfig) (st : CheckState) : Type 0 where
  pub interval_high : st.current_interval ≤ max c.ping_interval max_interval
  pub ticker_low : c.ping_interval ≤ st.ticker_period
  pub ticker_high : st.ticker_period ≤ st.current_interval
  pub latencies : length st.recent_latencies ≤ 10

-- The timeout lies between the configured one and 15 seconds, in either order.
pub adaptive_timeout_bounds :
    (c : PingConfig) (l : List ℕ)
    → (min c.ping_timeout (15 * second) ≤ adaptive_timeout c l)
      × (adaptive_timeout c l ≤ max c.ping_timeout (15 * second))
unfolding adaptive_timeout
adaptive_timeout_bounds c [] = omega arith
adaptive_timeout_bounds c (a ∷ l) = ground arith

length-remember : (t : ℕ) (l : List ℕ) → length l ≤ 10 → length (remember t l) ≤ 10
unfolding remember
length-remember t l h = ground (arith, length-append l (t ∷ []), length-drop 1 (l ++ t ∷ []))

module _ (s : Scaling) (c : PingConfig) where
  on_failure-IsBounded :
      (t : ℕ) (st : CheckState) → IsBounded c st → IsBounded c (on_failure s c t st).0
  unfolding on_failure grown_interval
  on_failure-IsBounded t st b = record {
    interval_high = ground (arith, b.interval_high);
    ticker_low = b.ticker_low;
    ticker_high = ground (arith, s.grow-ge st.current_interval, b.ticker_high);
    latencies = length-remember t st.recent_latencies b.latencies;
  }

  on_success-IsBounded :
      (t : ℕ) (st : CheckState) → IsBounded c st → IsBounded c (on_success s c t st).0
  unfolding on_success shrunk_interval
  on_success-IsBounded t st b = record {
    interval_high = ground (arith, s.shrink-le st.current_interval, b.interval_high);
    ticker_low = ground (arith, b.ticker_low);
    ticker_high = ground (arith, b.ticker_high);
    latencies = length-remember t st.recent_latencies b.latencies;
  }

  -- A tick is one of its two branches.
  ping_tick-cases :
      (fn : PingFunc) (jitter : ℕ → ℕ) (st : CheckState)
      → ((succeeds c fn jitter st ≡ false)
          × (ping_tick s c fn jitter st
              ≡ on_failure s c (adaptive_timeout c st.recent_latencies) st))
        ⊎ ((latency : ℕ) × (succeeds c fn jitter st ≡ true)
            × (ping_tick s c fn jitter st ≡ on_success s c latency st))
  unfolding ping_tick
  ping_tick-cases fn jitter st =
      let t = adaptive_timeout c st.recent_latencies in
      let result : Option ℕ =
        (reliable_ping fn jitter t (max_attempts st.consecutive_failures)).0 in
      elim (Option-cases result) [
        | inl e ↦ inl (ground arith, ground arith)
        | inr (latency, e) ↦ inr (latency, ground arith, ground arith)
      ]

  ping_tick-IsBounded :
      (fn : PingFunc) (jitter : ℕ → ℕ) (st : CheckState)
      → IsBounded c st
      → IsBounded c (ping_tick s c fn jitter st).0
  ping_tick-IsBounded fn jitter st b = elim (ping_tick-cases fn jitter st) [
    | inl (no_reply, e) ↦ rw e (on_failure-IsBounded _ st b)
    | inr (latency, reply, e) ↦ rw e (on_success-IsBounded latency st b)
  ]

  run_ticks-IsBounded :
      (ticks : List (PingFunc × (ℕ → ℕ))) (st : CheckState)
      → IsBounded c st
      → IsBounded c (run_ticks s c ticks st).0
  unfolding run_ticks
  run_ticks-IsBounded [] st b = b
  run_ticks-IsBounded ((fn, jitter) ∷ more) st b =
      run_ticks-IsBounded more (ping_tick s c fn jitter st).0 (ping_tick-IsBounded fn jitter st b)

  -- Over any ticks, the ticker's period stays between the configured interval and the current one,
  -- the current one is never above the greater of six seconds and the configured one, and at most ten
  -- latencies are kept.
  pub run_ticks_start-IsBounded :
      (ticks : List (PingFunc × (ℕ → ℕ))) → IsBounded c (run_ticks s c ticks (start_state c)).0
  unfolding start_state
  run_ticks_start-IsBounded ticks = run_ticks-IsBounded ticks _ (record {
    interval_high = omega arith;
    ticker_low = omega arith;
    ticker_high = omega arith;
    latencies = omega arith;
  })

  on_failure-ticker_period :
      (t : ℕ) (st : CheckState) → (on_failure s c t st).0.ticker_period ≡ st.ticker_period
  unfolding on_failure
  on_failure-ticker_period t st = refl

  ping_tick-failing :
      (fn : PingFunc) (jitter : ℕ → ℕ) (st : CheckState)
      → succeeds c fn jitter st ≡ false
      → (ping_tick s c fn jitter st).0.ticker_period ≡ st.ticker_period
  ping_tick-failing fn jitter st h = elim (ping_tick-cases fn jitter st) [
    | inl (no_reply, e) ↦ rw e (on_failure-ticker_period _ st)
    | inr (latency, reply, e) ↦ cc
  ]

  -- However long an outage lasts, its failing ticks leave the ticker's period as it was, although
  -- they let the interval grow.
  pub run_ticks-failing :
      (ticks : List (PingFunc × (ℕ → ℕ))) (st : CheckState)
      → All (λ (b : Bool). b ≡ false) (results s c ticks st)
      → (run_ticks s c ticks st).0.ticker_period ≡ st.ticker_period
  unfolding run_ticks
  run_ticks-failing [] st h = refl
  run_ticks-failing ((fn, jitter) ∷ more) st h =
      run_ticks-failing more (ping_tick s c fn jitter st).0 h.1 ∙ ping_tick-failing fn jitter st h.0

  on_success-interval :
      (latency : ℕ) (st : CheckState)
      → IsBounded c st
      → 10 * ((on_success s c latency st).0.current_interval - c.ping_interval)
        ≤ 10 * (st.current_interval - c.ping_interval) - c.ping_interval
  unfolding on_success shrunk_interval
  on_success-interval latency st b =
      ground (arith, s.shrink-le st.current_interval, b.interval_high)

  ping_tick-succeeding :
      (fn : PingFunc) (jitter : ℕ → ℕ) (st : CheckState)
      → succeeds c fn jitter st ≡ true
      → IsBounded c st
      → 10 * ((ping_tick s c fn jitter st).0.current_interval - c.ping_interval)
        ≤ 10 * (st.current_interval - c.ping_interval) - c.ping_interval
  ping_tick-succeeding fn jitter st h b = elim (ping_tick-cases fn jitter st) [
    | inl (no_reply, e) ↦ cc
    | inr (latency, reply, e) ↦ rw e (on_success-interval latency st b)
  ]

  -- A tenth of the configured interval is won back by each successful tick: after enough of them,
  -- the interval and the ticker's period are the configured ones.
  pub run_ticks-succeeding :
      (ticks : List (PingFunc × (ℕ → ℕ))) (st : CheckState)
      → IsBounded c st
      → All (λ (b : Bool). b ≡ true) (results s c ticks st)
      → 10 * (st.current_interval - c.ping_interval) ≤ length ticks * c.ping_interval
      → ((run_ticks s c ticks st).0.current_interval ≡ c.ping_interval)
        × ((run_ticks s c ticks st).0.ticker_period ≡ c.ping_interval)
  unfolding run_ticks
  run_ticks-succeeding [] st b h enough =
      (omega (arith, b.ticker_low, b.ticker_high), omega (arith, b.ticker_low, b.ticker_high))
  run_ticks-succeeding ((fn, jitter) ∷ more) st b h enough =
      run_ticks-succeeding more (ping_tick s c fn jitter st).0 (ping_tick-IsBounded fn jitter st b)
        h.1 (grind (arith, ping_tick-succeeding fn jitter st h.0 b))
