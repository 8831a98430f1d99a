-- ===== src/Ping/Check.antt =====
-- newt/ping.go: the goroutine of `startPingCheck` as a function of the results of its pings. The
-- period of the ticker is a field, since only `ticker.Reset` changes it. The counter of failures
-- does not reach the largest `int`.
pub mod Recovery
pub mod Interval
use newt.Prelude.{
  ℕ, zero, suc, ◌+◌, ◌*◌, ◌/◌, Bool, true, false, not, ◌&&◌, Option, none, some, List, [], ◌∷◌,
  ◌++◌, length, drop, if◌then◌else◌, ltb, leb,
}
use newt.Ping.{second, Scaling, PingConfig}
use newt.Ping.Attempts.{PingFunc, Attempt, reliable_ping}

pub record CheckState : Type 0 where
  pub current_interval : ℕ
  pub ticker_period : ℕ
  pub consecutive_failures : ℕ
  pub connection_lost : Bool
  pub recent_latencies : List ℕ

-- what a tick does besides its state
pub data Effect : Type 0 where
  request_pings : Effect
  register_again : Effect
  remove_health_file : Effect
  write_health_file : Effect

abbrev pub max_interval : ℕ
max_interval = 6 * second

abbrev pub failure_threshold : ℕ
failure_threshold = 4

unfoldable pub start_state : PingConfig → CheckState
start_state c = record {
  current_interval = c.ping_interval;
  ticker_period = c.ping_interval;
  consecutive_failures = 0;
  connection_lost = false;
  recent_latencies = [];
}

abbrev pub sum : List ℕ → ℕ
sum [] = 0
sum (a ∷ l) = a + sum l

abbrev clamp_timeout : ℕ → ℕ → ℕ
clamp_timeout low t =
    let t' = if ltb t low then low else t in if ltb (15 * second) t' then 15 * second else t'

unfoldable pub adaptive_timeout : PingConfig → List ℕ → ℕ
adaptive_timeout c [] = c.ping_timeout
adaptive_timeout c (a ∷ l) = clamp_timeout c.ping_timeout (sum (a ∷ l) / length (a ∷ l) * 3)

unfoldable pub max_attempts : ℕ → ℕ
max_attempts failures = if ltb 4 failures then 4 else 2

-- the last ten
unfoldable pub remember : ℕ → List ℕ → List ℕ
remember latency l = let l' = l ++ latency ∷ [] in if ltb 10 (length l') then drop 1 l' else l'

unfoldable pub should_fire_recovery : ℕ → ℕ → Bool → Bool
should_fire_recovery failures threshold lost = leb threshold failures && not lost

abbrev recovery_effects : PingConfig → List Effect
recovery_effects c =
    request_pings ∷ register_again ∷ (if c.health_file then remove_health_file ∷ [] else [])

module _ (s : Scaling) (c : PingConfig) where
  unfoldable pub grown_interval : ℕ → ℕ
  grown_interval i = if ltb max_interval (s.grow i) then max_interval else s.grow i

  unfoldable pub shrunk_interval : ℕ → ℕ
  shrunk_interval i = if ltb (s.shrink i) c.ping_interval then c.ping_interval else s.shrink i

  -- the branch of a ping that failed under the timeout `t`
  unfoldable pub on_failure : ℕ → CheckState → CheckState × List Effect
  unfolding should_fire_recovery remember grown_interval
  on_failure t st =
      let n = st.consecutive_failures + 1 in
      let fire = should_fire_recovery n failure_threshold st.connection_lost in
      (
        record st {
          consecutive_failures = n;
          recent_latencies = remember t st.recent_latencies;
          connection_lost = if fire then true else st.connection_lost;
          current_interval =
              if leb failure_threshold n && ltb st.current_interval max_interval
              then grown_interval st.current_interval
              else st.current_interval;
        },
        if fire then recovery_effects c else [],
      )

  unfoldable pub on_success : ℕ → CheckState → CheckState × List Effect
  unfolding remember shrunk_interval
  on_success latency st =
      let slow = ltb c.ping_interval st.current_interval in
      (
        record {
          consecutive_failures = 0;
          recent_latencies = remember latency st.recent_latencies;
          connection_lost = false;
          current_interval =
              if slow then shrunk_interval st.current_interval else st.current_interval;
          ticker_period = if slow then shrunk_interval st.current_interval else st.ticker_period;
        },
        if st.connection_lost && c.health_file then write_health_file ∷ [] else [],
      )

  -- one tick, with the ping function and the jitter of its attempts
  unfoldable pub ping_tick : PingFunc → (ℕ → ℕ) → CheckState → CheckState × List Effect
  unfolding adaptive_timeout max_attempts on_failure on_success
  ping_tick fn jitter st =
      let t = adaptive_timeout c st.recent_latencies in
      let (result, made) = reliable_ping fn jitter t (max_attempts st.consecutive_failures) in
      elim result [ none ↦ on_failure t st | some latency ↦ on_success latency st ]

  -- ticks one after another, with their effects
  unfoldable pub run_ticks : List (PingFunc × (ℕ → ℕ)) → CheckState → CheckState × List Effect
  unfolding ping_tick
  run_ticks [] st = (st, [])
  run_ticks ((fn, jitter) ∷ more) st =
      let (st', es) = ping_tick fn jitter st in
      let (st'', es') = run_ticks more st' in (st'', es ++ es')
