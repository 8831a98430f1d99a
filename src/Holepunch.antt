-- ===== src/Holepunch.antt =====
-- holepunch/holepunch.go: the exit nodes and intervals of `Manager`, and its calls, each of which
-- holds the lock. A channel is its number; `closed` are the closed ones and `pending` those update
-- channels (of capacity 1) that hold a signal. Names and keys are texts.
pub mod Worker
pub mod Peers
mod Tests
use newt.Prelude.{
  ℕ, ◌+◌, ◌*◌, String, Bool, true, false, not, ◌&&◌, Option, none, some, List, [], ◌∷◌, ℤ, ◌==◌,
  int_eq, nat_eq, string_eq, if◌then◌else◌, is_some, keep_if, length,
}
use newt.Prelude.GoMap.{GoMap, lookup, insert, delete, elem}

pub record ExitNode : Type 0 where
  pub endpoint : String
  pub relay_port : ℕ
  pub public_key : String
  pub site_ids : List ℤ

pub record Manager : Type 0 where
  pub running : Bool
  pub stop_chan : Option ℕ
  pub update_chan : Option ℕ
  pub token : String
  pub exit_nodes : GoMap String ExitNode
  pub interval : ℕ
  pub interval_min : ℕ
  pub interval_max : ℕ
  pub default_min : ℕ
  pub default_max : ℕ
  pub closed : List ℕ
  pub pending : List ℕ
  pub next : ℕ

abbrev pub second : ℕ
second = 1000000000

unfoldable pub new_manager : Manager
new_manager = record {
  running = false;
  stop_chan = none;
  update_chan = none;
  token = "";
  exit_nodes = [];
  interval = second;
  interval_min = second;
  interval_max = 60 * second;
  default_min = second;
  default_max = 60 * second;
  closed = [];
  pending = [];
  next = 0;
}

unfoldable pub set_token : String → Manager → Manager
set_token t m = record m { token = t }

abbrev pub close_chan : Option ℕ → List ℕ → List ℕ
close_chan none closed = closed
close_chan (some c) closed = c ∷ closed

unfoldable pub stop : Manager → Manager
stop m =
    if m.running
    then record m {
      closed = close_chan m.update_chan (close_chan m.stop_chan m.closed);
      stop_chan = none;
      update_chan = none;
      running = false;
    }
    else m

-- the signal to the goroutine, which is skipped where one is pending
unfoldable pub signal : Manager → Manager
signal m =
    if m.running
    then elim m.update_chan [
      | none ↦ m
      | some c ↦ if elem c m.pending then m else record m { pending = c ∷ m.pending }
    ]
    else m

unfoldable pub add_exit_node : ExitNode → Manager → Bool × Manager
unfolding signal
add_exit_node node m =
    if is_some (lookup node.endpoint m.exit_nodes)
    then (false, m)
    else (true, signal (record m { exit_nodes = insert node.endpoint node m.exit_nodes }))

unfoldable pub remove_exit_node : String → Manager → Bool × Manager
unfolding signal
remove_exit_node endpoint m =
    if is_some (lookup endpoint m.exit_nodes)
    then (true, signal (record m { exit_nodes = delete endpoint m.exit_nodes }))
    else (false, m)

abbrev pub without_peer : ℤ → List ℤ → List ℤ
without_peer id = keep_if (λ x. not (x == id))

-- what is left of a node: `none` where it is removed
unfoldable pub leave_node : ℤ → ExitNode → Option ExitNode
leave_node id node =
    let ids = without_peer id node.site_ids in
    if length ids == length node.site_ids
    then some node
    else if length ids == 0
    then none
    else some (record node { site_ids = ids })

-- the loop over the nodes, with the number of those that it removes
unfoldable pub leave_nodes : ℤ → GoMap String ExitNode → GoMap String ExitNode × ℕ
unfolding leave_node
leave_nodes id [] = ([], 0)
leave_nodes id ((endpoint, node) ∷ m) =
    let rest = leave_nodes id m in
    elim (leave_node id node) [
      | none ↦ (rest.0, rest.1 + 1)
      | some node' ↦ ((endpoint, node') ∷ rest.0, rest.1)
    ]

unfoldable pub remove_exit_nodes_by_peer : ℤ → Manager → ℕ × Manager
unfolding leave_nodes signal
remove_exit_nodes_by_peer id m =
    let (nodes, removed) = leave_nodes id m.exit_nodes in
    let m' = record m { exit_nodes = nodes } in (removed, if removed == 0 then m' else signal m')

-- the nodes of `GetExitNodes`, of `TriggerHolePunch` and of the goroutine
abbrev pub node_list : GoMap String ExitNode → List ExitNode
node_list [] = []
node_list ((endpoint, node) ∷ m) = node ∷ node_list m

unfoldable pub get_exit_nodes : Manager → List ExitNode
get_exit_nodes m = node_list m.exit_nodes

unfoldable pub set_server_holepunch_interval : ℕ → ℕ → Manager → Manager
unfolding signal
set_server_holepunch_interval low high m =
    signal (record m { interval_min = low; interval_max = high; interval = low })

unfoldable pub reset_server_holepunch_interval : Manager → Manager
unfolding signal
reset_server_holepunch_interval m = signal (record m {
  interval_min = m.default_min;
  interval_max = m.default_max;
  interval = m.default_min;
})

-- `running`, with new channels
unfoldable pub open_channels : Manager → Manager
open_channels m = record m {
  running = true;
  stop_chan = some m.next;
  update_chan = some (m.next + 1);
  next = m.next + 2;
}

-- whether the goroutine is started; false is the error that it already runs
unfoldable pub start : Manager → Bool × Manager
unfolding open_channels
start m = if m.running then (false, m) else (true, open_channels m)

abbrev pub nodes_map : List ExitNode → GoMap String ExitNode → GoMap String ExitNode
nodes_map [] m = m
nodes_map (node ∷ l) m = nodes_map l (insert node.endpoint node m)

unfoldable pub start_multiple_exit_nodes : List ExitNode → Manager → Bool × Manager
unfolding open_channels
start_multiple_exit_nodes nodes m =
    if m.running
    then (false, m)
    else (true, open_channels (record m { exit_nodes = nodes_map nodes [] }))
