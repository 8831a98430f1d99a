-- ===== src/Ping/Tests.antt =====
-- Exact scalings, and the theorems on pings at concrete results.
use newt.Prelude.{ℕ, ◌≡◌, ◌*◌, ◌/◌, refl, true, some, none, List, [], ◌∷◌, arith}
use newt.Ping.{Scaling, PingConfig, second, millisecond}
use newt.Ping.Attempts.{PingFunc, reliable_ping, attempt_timeout}
use newt.Ping.Check.{
  CheckState, start_state, run_ticks, ping_tick, adaptive_timeout, max_attempts, remember,
  should_fire_recovery, grown_interval, shrunk_interval,
}
use newt.Ping.Check.Recovery.{results, outages, recoveries, run_ticks-recoveries_start}
use newt.Ping.Check.Interval.{IsBounded, run_ticks_start-IsBounded, run_ticks-succeeding}

abbrev exact : Scaling
exact = record {
  grow = λ d. d * 13 / 10;
  shrink = λ d. d * 9 / 10;
  delay = λ d. d * 3 / 2;
  grow-ge = λ d h. omega arith;
  shrink-le = λ d h. omega arith;
  delay-ge = λ d h. omega arith;
}

-- the defaults: 3 and 5 seconds
abbrev config : PingConfig
config = record { ping_interval = 3 * second; ping_timeout = 5 * second; health_file = true }

abbrev lost : PingFunc × (ℕ → ℕ)
lost = ((λ k t. none), (λ k. 50))

abbrev answered : PingFunc × (ℕ → ℕ)
answered = ((λ k t. some (20 * millisecond)), (λ k. 0))

-- five failures, a success, and a failure
abbrev outage : List (PingFunc × (ℕ → ℕ))
outage = lost ∷ lost ∷ lost ∷ lost ∷ lost ∷ answered ∷ lost ∷ []

outage_recovers : recoveries (run_ticks exact config outage (start_state config)).1 ≡ 1
unfolding run_ticks start_state adaptive_timeout max_attempts reliable_ping attempt_timeout remember
    should_fire_recovery grown_interval shrunk_interval
outage_recovers = refl

run_ticks-recoveries_start_example :
    recoveries (run_ticks exact config outage (start_state config)).1
    ≡ outages 0 (results exact config outage (start_state config))
run_ticks-recoveries_start_example = run_ticks-recoveries_start exact config outage

run_ticks_start-IsBounded_example :
    IsBounded config (run_ticks exact config outage (start_state config)).0
run_ticks_start-IsBounded_example = run_ticks_start-IsBounded exact config outage

-- after an outage: the current interval is 4.5 seconds
abbrev slowed : CheckState
slowed = record {
  current_interval = 4500000000;
  ticker_period = 3 * second;
  consecutive_failures = 5;
  connection_lost = true;
  recent_latencies = [];
}

abbrev recovering : List (PingFunc × (ℕ → ℕ))
recovering = answered ∷ answered ∷ answered ∷ answered ∷ answered ∷ []

run_ticks-succeeding_example :
    ((run_ticks exact config recovering slowed).0.current_interval ≡ 3 * second)
    × ((run_ticks exact config recovering slowed).0.ticker_period ≡ 3 * second)
unfolding ping_tick adaptive_timeout max_attempts reliable_ping attempt_timeout remember
    should_fire_recovery grown_interval shrunk_interval
run_ticks-succeeding_example =
    run_ticks-succeeding exact config recovering slowed
      (record {
        ticker_low = omega arith;
        interval_high = omega arith;
        ticker_high = omega arith;
        latencies = omega arith;
      })
      (refl, (refl, (refl, (refl, (refl, tt))))) (omega arith)
