-- ===== src/Holepunch/Worker/Interval.antt =====
-- holepunch/holepunch.go: the interval between packets, over calls and steps of the goroutine.
use newt.Prelude.{
  string_eq, ℕ, ◌≤◌, ◌<◌, ◌^◌, ◌+◌, ◌*◌, ◌%◌, ◌≡◌, ltb, if◌then◌else◌, String, List, arith, ℤ,
}
use newt.Prelude.GoMap.{insert, delete}
use newt.Holepunch.{
  ExitNode, Manager, new_manager, set_token, stop, add_exit_node, remove_exit_node, signal,
  remove_exit_nodes_by_peer, set_server_holepunch_interval, reset_server_holepunch_interval, start,
  start_multiple_exit_nodes, open_channels, leave_nodes,
}
use newt.Holepunch.Worker.{
  Outside, Worker, Step, begin, take_stop, take_update, take_tick, doubled, is_longer,
}

-- The interval lies between the configured bounds, which are in order and below 2^62 nanoseconds, as
-- are the default ones.
pub record IsWithin (m : Manager) : Type 0 where
  pub low : m.interval_min ≤ m.interval
  pub high : m.interval ≤ m.interval_max
  pub small : m.interval_max < 2 ^ 62
  pub defaults : m.default_min ≤ m.default_max
  pub defaults_small : m.default_max < 2 ^ 62

-- Calls of the manager, and steps of a goroutine that shares it.
pub data Move (o : Outside) : Manager → Manager → Type 0 where
  token : (t : String) (m : Manager) → Move o m (set_token t m)
  stopped : (m : Manager) → Move o m (stop m)
  added : (node : ExitNode) (m : Manager) → Move o m (add_exit_node node m).1
  removed : (endpoint : String) (m : Manager) → Move o m (remove_exit_node endpoint m).1
  peer_removed : (id : ℤ) (m : Manager) → Move o m (remove_exit_nodes_by_peer id m).1
  set_interval :
      (low high : ℕ) (m : Manager)
      → low ≤ high
      → high < 2 ^ 62
      → Move o m (set_server_holepunch_interval low high m)
  reset : (m : Manager) → Move o m (reset_server_holepunch_interval m)
  started : (m : Manager) → Move o m (start m).1
  started_with :
      (nodes : List ExitNode) (m : Manager) → Move o m (start_multiple_exit_nodes nodes m).1
  worked : (w : Worker) (m : Manager) (t : Worker × Manager) → Step o (w, m) t → Move o m t.1

pub data Moves (o : Outside) : Manager → Type 0 where
  new : Moves o new_manager
  then_move : {m m' : Manager} → Moves o m → Move o m m' → Moves o m'

signal-IsWithin : (m : Manager) → IsWithin m → IsWithin (signal m)
unfolding signal
signal-IsWithin m h = ground arith

-- Below 2^62 nothing wraps around.
doubled-eq :
    (interval high : ℕ)
    → interval < 2 ^ 62
    → high < 2 ^ 62
    → doubled interval high ≡ (if ltb high (interval * 2) then high else interval * 2)
unfolding doubled is_longer
doubled-eq interval high i h =
    let a : (interval * 2) % 2 ^ 64 ≡ interval * 2 = omega arith in
    let b : (interval * 2 + 2 ^ 63) % 2 ^ 64 ≡ interval * 2 + 2 ^ 63 = omega arith in
    let c : (high + 2 ^ 63) % 2 ^ 64 ≡ high + 2 ^ 63 = omega arith in ground (arith, a, b, c)

take_tick-IsWithin :
    (o : Outside) (m : Manager) (w : Worker) → IsWithin m → IsWithin (take_tick o m w).1
unfolding take_tick
take_tick-IsWithin o m w h =
    ground (arith, doubled-eq m.interval m.interval_max (omega (arith, h.high, h.small)) h.small)

Step-IsWithin : {o : Outside} {s t : Worker × Manager} → Step o s t → IsWithin s.1 → IsWithin t.1
unfolding begin take_stop take_update
Step-IsWithin (Step.begins w m at) h = ground arith
Step-IsWithin (Step.selects w m at) h = h
Step-IsWithin (Step.stops w m s u at ready) h = ground arith
Step-IsWithin (Step.updates w m s u at ready) h = ground arith
Step-IsWithin {o} (Step.ticks w m s u at) h = take_tick-IsWithin o m w h

Move-IsWithin : {o : Outside} {m m' : Manager} → Move o m m' → IsWithin m → IsWithin m'
unfolding set_token stop add_exit_node remove_exit_node remove_exit_nodes_by_peer
    set_server_holepunch_interval reset_server_holepunch_interval start start_multiple_exit_nodes
    open_channels
Move-IsWithin (Move.token t m) h = ground arith
Move-IsWithin (Move.stopped m) h = ground arith
Move-IsWithin (Move.added node m) h =
    ground
      (arith, signal-IsWithin (record m { exit_nodes = insert node.endpoint node m.exit_nodes }))
Move-IsWithin (Move.removed endpoint m) h =
    ground (arith, signal-IsWithin (record m { exit_nodes = delete endpoint m.exit_nodes }))
Move-IsWithin (Move.peer_removed id m) h =
    ground (arith, signal-IsWithin (record m { exit_nodes = (leave_nodes id m.exit_nodes).0 }))
Move-IsWithin (Move.set_interval low high m lh small) h =
    signal-IsWithin (record m { interval_min = low; interval_max = high; interval = low })
      (record {
        low = omega arith;
        high = lh;
        small = small;
        defaults = h.defaults;
        defaults_small = h.defaults_small;
      })
Move-IsWithin (Move.reset m) h =
    signal-IsWithin
      (record m {
        interval_min = m.default_min;
        interval_max = m.default_max;
        interval = m.default_min;
      })
      (record {
        low = omega arith;
        high = h.defaults;
        small = h.defaults_small;
        defaults = h.defaults;
        defaults_small = h.defaults_small;
      })
Move-IsWithin (Move.started m) h = ground arith
Move-IsWithin (Move.started_with nodes m) h = ground arith
Move-IsWithin (Move.worked w m t st) h = Step-IsWithin st h

new_manager-IsWithin : IsWithin new_manager
unfolding new_manager
new_manager-IsWithin = record {
  low = omega arith;
  high = omega arith;
  small = omega arith;
  defaults = omega arith;
  defaults_small = omega arith;
}

-- After any calls and steps of goroutines, in any order, where each interval that is set has its
-- minimum not above its maximum, and that below 2^62 nanoseconds: the interval between packets lies between the minimum and the maximum
-- that hold at the time.
pub Moves-IsWithin : {o : Outside} {m : Manager} → Moves o m → IsWithin m
Moves-IsWithin Moves.new = new_manager-IsWithin
Moves-IsWithin (Moves.then_move ms mv) = Move-IsWithin mv (Moves-IsWithin ms)
