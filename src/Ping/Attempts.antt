-- ===== src/Ping/Attempts.antt =====
-- newt/ping.go: `reliablePing`. The ping function and the random jitter are functions of the
-- attempt's number; `none` is a failed ping.
pub mod Outcome
use newt.Prelude.{
  ℕ, zero, suc, ◌+◌, ◌-◌, ◌*◌, ◌/◌, ◌≤◌, ◌<◌, ◌≡◌, refl, Bool, true, false, Option, none, some,
  List, [], ◌∷◌, arith, if◌then◌else◌, ltb, Option-cases, inl, inr, is_some,
}
use newt.Ping.{millisecond}

-- One attempt: the timeout that it was given, and the pause behind it.
pub record Attempt : Type 0 where
  pub timeout : ℕ
  pub pause : ℕ

abbrev pub PingFunc : Type 0
PingFunc = ℕ → ℕ → Option ℕ

unfoldable pub attempt_timeout : (ℕ → ℕ) → ℕ → ℕ → ℕ
attempt_timeout jitter base attempt =
    base + (attempt - 1) * (500 * millisecond) + jitter attempt * millisecond

-- the rounds that are left of the loop
unfoldable pub attempts_from : PingFunc → (ℕ → ℕ) → ℕ → ℕ → ℕ → ℕ → Option ℕ × List Attempt
unfolding attempt_timeout
attempts_from fn jitter base max_attempts zero attempt = (none, [])
attempts_from fn jitter base max_attempts (suc left) attempt =
    let t = attempt_timeout jitter base attempt in
    let rest = attempts_from fn jitter base max_attempts left (attempt + 1) in
    elim (fn attempt t) [
      | some latency ↦ (some (latency / 1), (record { timeout = t; pause = 0 }) ∷ [])
      | none ↦
          let pause = if ltb attempt max_attempts then attempt * (50 * millisecond) else 0 in
          (rest.0, (record { timeout = t; pause = pause }) ∷ rest.1)
    ]

unfoldable pub reliable_ping : PingFunc → (ℕ → ℕ) → ℕ → ℕ → Option ℕ × List Attempt
unfolding attempts_from
reliable_ping fn jitter base max_attempts = attempts_from fn jitter base max_attempts max_attempts 1

-- The longest that the attempts can take.
abbrev pub duration : List Attempt → ℕ
duration [] = 0
duration (a ∷ l) = a.timeout + a.pause + duration l
