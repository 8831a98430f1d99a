-- ===== src/Ping/Attempts/Outcome.antt =====
-- newt/ping.go: when `reliablePing` fails, and how long it takes.
use newt.Prelude.{
  ℕ, zero, suc, ◌+◌, ◌-◌, ◌*◌, ◌≤◌, ◌<◌, ◌≡◌, refl, none, List, arith, ltb, inl, inr, length, max,
  Bool-cases,
}
use newt.Ping.{millisecond, second, PingConfig}
use newt.Ping.Attempts.{PingFunc, attempt_timeout, attempts_from, reliable_ping, duration}
use newt.Ping.Check.{adaptive_timeout, max_attempts}
use newt.Ping.Check.Interval.{adaptive_timeout_bounds}

-- Each of the pings of the attempts `k`, `k + 1`, … fails.
abbrev pub AllFail : PingFunc → (ℕ → ℕ) → ℕ → ℕ → ℕ → Type 0
AllFail fn jitter base zero k = Unit
AllFail fn jitter base (suc left) k =
    (fn k (attempt_timeout jitter base k) ≡ none) × AllFail fn jitter base left (k + 1)

attempts_from-fails :
    (fn : PingFunc) (jitter : ℕ → ℕ) (base n left k : ℕ)
    → AllFail fn jitter base left k
    → ((attempts_from fn jitter base n left k).0 ≡ none)
      × (length (attempts_from fn jitter base n left k).1 ≡ left)
unfolding attempts_from
attempts_from-fails fn jitter base n zero k h = (refl, refl)
attempts_from-fails fn jitter base n (suc left) k h =
    ground (arith, attempts_from-fails fn jitter base n left (k + 1) h.1, h.0)

attempts_from-none :
    (fn : PingFunc) (jitter : ℕ → ℕ) (base n left k : ℕ)
    → (attempts_from fn jitter base n left k).0 ≡ none
    → AllFail fn jitter base left k
unfolding attempts_from
attempts_from-none fn jitter base n zero k h = tt
attempts_from-none fn jitter base n (suc left) k h =
    ground (arith, attempts_from-none fn jitter base n left (k + 1))

-- The call fails exactly when each of the `n` pings fails, the last one included, and then it made
-- `n` attempts.
pub reliable_ping-none :
    (fn : PingFunc) (jitter : ℕ → ℕ) (base n : ℕ)
    → (((reliable_ping fn jitter base n).0 ≡ none) → AllFail fn jitter base n 1)
      × (AllFail fn jitter base n 1
          → ((reliable_ping fn jitter base n).0 ≡ none)
            × (length (reliable_ping fn jitter base n).1 ≡ n))
unfolding reliable_ping
reliable_ping-none fn jitter base n =
    (attempts_from-none fn jitter base n n 1, attempts_from-fails fn jitter base n n 1)

-- The longest that one of `n` attempts and the pause behind it can take.
abbrev pub attempt_limit : ℕ → ℕ → ℕ
attempt_limit base n =
    base + (n - 1) * (500 * millisecond) + 99 * millisecond + (n - 1) * (50 * millisecond)

attempts_from-duration :
    (fn : PingFunc) (jitter : ℕ → ℕ) (base n left k : ℕ)
    → ((i : ℕ) → jitter i < 100)
    → k + left ≡ n + 1
    → 1 ≤ k
    → duration (attempts_from fn jitter base n left k).1 ≤ left * attempt_limit base n
unfolding attempts_from attempt_timeout
attempts_from-duration fn jitter base n zero k small h one = omega arith
attempts_from-duration fn jitter base n (suc left) k small h one =
    ground (arith, attempts_from-duration fn jitter base n left (k + 1) small, small k)

-- With a jitter below 100 ms, the attempts of one tick and the pauses between them end within four
-- times the greater of the configured timeout and 15 seconds, and 7 seconds more.
pub reliable_ping-duration :
    (c : PingConfig) (fn : PingFunc) (jitter : ℕ → ℕ) (latencies : List ℕ) (failures : ℕ)
    → ((i : ℕ) → jitter i < 100)
    → duration (reliable_ping fn jitter (adaptive_timeout c latencies) (max_attempts failures)).1
      ≤ 4 * max c.ping_timeout (15 * second) + 7 * second
unfolding reliable_ping max_attempts
reliable_ping-duration c fn jitter latencies failures small =
    let t = adaptive_timeout c latencies in
    let b = adaptive_timeout_bounds c latencies in
    let bound = λ (n : ℕ). attempts_from-duration fn jitter t n n 1 small in
    elim (Bool-cases (ltb 4 failures)) [
      | inl e ↦ rw e (omega (arith, bound 4 (omega arith) (omega arith), b.1))
      | inr e ↦ rw e (omega (arith, bound 2 (omega arith) (omega arith), b.1))
    ]
