-- ===== src/Holepunch/Worker.antt =====
-- holepunch/holepunch.go: the goroutine of `runMultipleExitNodes`, which reads the fields of the
-- manager anew each time it comes to its `select`. The address of an endpoint and the success of a
-- send, after the checks of `sendHolePunch`, are functions that are passed in.
pub mod Stopping
pub mod Interval
use newt.Prelude.{
  ℕ, ◌+◌, ◌%◌, ◌^◌, ◌*◌, String, Bool, true, false, ◌||◌, ◌≡◌, Option, none, some, List, [], ◌∷◌,
  ◌++◌, ◌==◌, nat_eq, string_eq, if◌then◌else◌, ltb, length, keep_if, not,
}
use newt.Prelude.GoMap.{elem}
use newt.Holepunch.{ExitNode, Manager, node_list}

pub record ResolvedExitNode : Type 0 where
  pub remote_addr : String
  pub public_key : String
  pub endpoint_name : String

pub record Outside : Type 0 where
  pub resolve : ExitNode → Option String
  pub write : String → String → Bool

-- where the goroutine is: at its `select` it holds the channels that it read there
pub data Phase : Type 0 where
  fresh : Phase
  looping : Phase
  waiting : Option ℕ → Option ℕ → Phase
  ended : Phase

pub record Worker : Type 0 where
  pub phase : Phase
  pub resolved : List ResolvedExitNode
  pub ticker_period : ℕ
  pub sent : List ResolvedExitNode

unfoldable pub resolve_nodes : Outside → List ExitNode → List ResolvedExitNode
resolve_nodes o [] = []
resolve_nodes o (node ∷ l) =
    let rest = resolve_nodes o l in
    elim (o.resolve node) [
      | none ↦ rest
      | some a ↦
          (record { remote_addr = a; public_key = node.public_key; endpoint_name = node.endpoint })
          ∷ rest
    ]

-- `sendHolePunch`
unfoldable pub send_hole_punch : Outside → String → ResolvedExitNode → Bool
send_hole_punch o token node =
    if node.public_key == "" || token == "" then false else o.write node.remote_addr node.public_key

-- the loop over the resolved nodes, with those that a packet went out to
unfoldable pub send_all : Outside → String → List ResolvedExitNode → List ResolvedExitNode
unfolding send_hole_punch
send_all o token [] = []
send_all o token (node ∷ l) =
    let rest = send_all o token l in if send_hole_punch o token node then node ∷ rest else rest

-- `TriggerHolePunch`: none where there is no node, or no packet went out
unfoldable pub trigger_hole_punch : Outside → Manager → Option (List ResolvedExitNode)
unfolding resolve_nodes send_all
trigger_hole_punch o m =
    if length m.exit_nodes == 0
    then none
    else let sent = send_all o m.token (resolve_nodes o (node_list m.exit_nodes)) in
      if length sent == 0 then none else some sent

-- the part of the function before its loop
unfoldable pub begin : Outside → Manager → Worker → Worker × Manager
unfolding resolve_nodes send_all
begin o m w =
    let nodes = resolve_nodes o (node_list m.exit_nodes) in
    (
      record {
        phase = Phase.looping;
        resolved = nodes;
        ticker_period = m.interval_min;
        sent = w.sent ++ send_all o m.token nodes;
      },
      record m { interval = m.interval_min },
    )

unfoldable pub enter_select : Manager → Worker → Worker
enter_select m w = record w { phase = Phase.waiting m.stop_chan m.update_chan }

-- the case of the stop channel, with the deferred call
unfoldable pub take_stop : Manager → Worker → Worker × Manager
take_stop m w = (record w { phase = Phase.ended }, record m { running = false })

-- a receive takes the signal
abbrev pub consume : Option ℕ → List ℕ → List ℕ
consume none pending = pending
consume (some c) pending = keep_if (λ x. not (x == c)) pending

-- the case of the update channel
unfoldable pub take_update : Outside → Option ℕ → Manager → Worker → Worker × Manager
unfolding resolve_nodes send_all
take_update o u m w =
    let nodes = resolve_nodes o (node_list m.exit_nodes) in
    (
      record {
        phase = Phase.looping;
        resolved = nodes;
        ticker_period = m.interval_min;
        sent = w.sent ++ send_all o m.token nodes;
      },
      record m { interval = m.interval_min; pending = consume u m.pending },
    )

-- A duration is the pattern of a 64-bit integer, whose upper half stands for the negative ones.
abbrev pub from_lowest : ℕ → ℕ
from_lowest d = (d + 2 ^ 63) % 2 ^ 64

unfoldable pub is_longer : ℕ → ℕ → Bool
is_longer a b = ltb (from_lowest b) (from_lowest a)

unfoldable pub doubled : ℕ → ℕ → ℕ
unfolding is_longer
doubled interval high =
    let next = (interval * 2) % 2 ^ 64 in if is_longer next high then high else next

-- the case of the ticker
unfoldable pub take_tick : Outside → Manager → Worker → Worker × Manager
unfolding send_all doubled
take_tick o m w =
    if length w.resolved == 0
    then (record w { phase = Phase.looping }, m)
    else (let next = doubled m.interval m.interval_max in
        (
          record w {
            phase = Phase.looping;
            sent = w.sent ++ send_all o m.token w.resolved;
            ticker_period = if next == m.interval then w.ticker_period else next;
          },
          record m { interval = next },
        ))

-- whether a receive from the channel can go on: it is closed or holds a signal
abbrev pub is_ready : Manager → Option ℕ → Bool
is_ready m none = false
is_ready m (some c) = elem c m.closed || elem c m.pending

-- A step of the goroutine beside a manager that it shares.
pub data Step (o : Outside) : Worker × Manager → Worker × Manager → Type 0 where
  begins : (w : Worker) (m : Manager) → w.phase ≡ Phase.fresh → Step o (w, m) (begin o m w)
  selects :
      (w : Worker) (m : Manager) → w.phase ≡ Phase.looping → Step o (w, m) (enter_select m w, m)
  stops :
      (w : Worker) (m : Manager) (s u : Option ℕ)
      → w.phase ≡ Phase.waiting s u
      → is_ready m s ≡ true
      → Step o (w, m) (take_stop m w)
  updates :
      (w : Worker) (m : Manager) (s u : Option ℕ)
      → w.phase ≡ Phase.waiting s u
      → is_ready m u ≡ true
      → Step o (w, m) (take_update o u m w)
  ticks :
      (w : Worker) (m : Manager) (s u : Option ℕ)
      → w.phase ≡ Phase.waiting s u
      → Step o (w, m) (take_tick o m w)
