-- ===== src/Ping/Retry.antt =====
-- newt/ping.go: `pingWithRetry`, for the results of its pings up to the moment it is stopped.
use newt.Prelude.{
  ℕ, ◌+◌, ◌*◌, ◌%◌, ◌≤◌, ◌≡◌, Bool, true, false, ◌&&◌, List, [], ◌∷◌, ◌++◌, arith, if◌then◌else◌,
  ltb, ◌==◌, nat_eq, refl, length, suc,
}
use newt.Ping.{second, Scaling, PingConfig}

pub data RetryEffect : Type 0 where
  remove_health : RetryEffect
  write_health : RetryEffect
  sleep : ℕ → RetryEffect

abbrev pub initial_retry_delay : ℕ
initial_retry_delay = 2 * second

abbrev pub max_retry_delay : ℕ
max_retry_delay = 60 * second

unfoldable pub next_delay : Scaling → ℕ → ℕ → ℕ
next_delay s attempt delay =
    if attempt % 5 == 0 && ltb delay max_retry_delay
    then (if ltb max_retry_delay (s.delay delay) then max_retry_delay else s.delay delay)
    else delay

abbrev established : PingConfig → List RetryEffect
established c = if c.health_file then write_health ∷ [] else []

-- the goroutine; its list of results ends where the goroutine is stopped
unfoldable pub retry_loop : Scaling → PingConfig → ℕ → ℕ → List Bool → List RetryEffect
unfolding next_delay
retry_loop s c attempt delay [] = []
retry_loop s c attempt delay (ok ∷ more) =
    let d = next_delay s attempt delay in
    let rest = retry_loop s c (attempt + 1) d more in if ok then established c else sleep d ∷ rest

-- whether the first ping succeeds, and all that is done
unfoldable pub ping_with_retry : Scaling → PingConfig → Bool → List Bool → Bool × List RetryEffect
unfolding retry_loop
ping_with_retry s c first more =
    let removed = if c.health_file then remove_health ∷ [] else [] in
    if first
    then (true, removed ++ established c)
    else (false, removed ++ retry_loop s c 2 initial_retry_delay more)

-- The pauses of a list, in order.
abbrev pub pauses : List RetryEffect → List ℕ
pauses [] = []
pauses (sleep d ∷ l) = d ∷ pauses l
pauses (_ ∷ l) = pauses l

-- Each number lies between the one before it and the limit.
abbrev pub Rising : ℕ → ℕ → List ℕ → Type 0
Rising low high [] = Unit
Rising low high (d ∷ l) = (low ≤ d) × (d ≤ high) × Rising d high l

-- the pings that fail before the first success
abbrev pub failures_first : List Bool → ℕ
failures_first [] = 0
failures_first (ok ∷ more) = let n = failures_first more in if ok then 0 else suc n

next_delay_bounds :
    (s : Scaling) (attempt delay : ℕ)
    → delay ≤ max_retry_delay
    → (delay ≤ next_delay s attempt delay) × (next_delay s attempt delay ≤ max_retry_delay)
unfolding next_delay
next_delay_bounds s attempt delay h = ground (arith, s.delay-ge delay)

retry_loop-Rising :
    (s : Scaling) (c : PingConfig) (attempt delay : ℕ) (more : List Bool)
    → delay ≤ max_retry_delay
    → Rising delay max_retry_delay (pauses (retry_loop s c attempt delay more))
      × (length (pauses (retry_loop s c attempt delay more)) ≡ failures_first more)
unfolding retry_loop
retry_loop-Rising s c attempt delay [] h = (tt, refl)
retry_loop-Rising s c attempt delay (true ∷ more) h = ground arith
retry_loop-Rising s c attempt delay (false ∷ more) h =
    let b = next_delay_bounds s attempt delay h in
    let rest = retry_loop-Rising s c (attempt + 1) (next_delay s attempt delay) more b.1 in
    ((b.0, b.1, rest.0), omega (arith, rest.1))

pauses-removed :
    (b : Bool) (l : List RetryEffect)
    → pauses ((if b then remove_health ∷ [] else []) ++ l) ≡ pauses l
pauses-removed true l = refl
pauses-removed false l = refl

-- Where the first ping fails: the pauses between the later pings start at two seconds, never
-- shrink, never exceed a minute, and there is one for each ping that fails before the first success.
pub ping_with_retry-Rising :
    (s : Scaling) (c : PingConfig) (more : List Bool)
    → Rising initial_retry_delay max_retry_delay (pauses (ping_with_retry s c false more).1)
      × (length (pauses (ping_with_retry s c false more).1) ≡ failures_first more)
unfolding ping_with_retry
ping_with_retry-Rising s c more =
    let loop = retry_loop-Rising s c 2 initial_retry_delay more (omega arith) in
    rw (pauses-removed c.health_file (retry_loop s c 2 initial_retry_delay more)) loop
