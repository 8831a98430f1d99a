-- ===== src/Holepunch/Tests.antt =====
-- holepunch/holepunch.go: a manager with two nodes, and the theorems at it.
use newt.Prelude.{
  ◌≡◌, ◌≢◌, ◌+◌, ◌*◌, refl, true, false, some, List, [], ◌∷◌, ℤ, pos, arith, length, string_eq,
  int_eq, String,
}
use newt.Prelude.GoMap.{lookup, elem}
use newt.Holepunch.{
  ExitNode, Manager, new_manager, start, stop, remove_exit_nodes_by_peer, second,
  set_server_holepunch_interval, leave_nodes,
}
use newt.Holepunch.Worker.{Outside, Phase, Worker, Step, take_tick, doubled, is_longer}
use newt.Holepunch.Worker.Stopping.{Reach, stop-may_not_end}
use newt.Holepunch.Worker.Interval.{IsWithin, Moves, Move, Moves-IsWithin}
use newt.Holepunch.Peers.{left, remove_exit_nodes_by_peer_lem}

abbrev reachable : Outside
reachable = record { resolve = λ n. some "10.0.0.1:21820"; write = λ a k. true }

abbrev node : String → List ℤ → ExitNode
node name sites = record {
  endpoint = name;
  relay_port = 21820;
  public_key = "key";
  site_ids = sites;
}

abbrev manager : Manager
manager = record {
  running = true;
  stop_chan = some 0;
  update_chan = some 1;
  token = "t";
  exit_nodes = ("a", node "a" (pos 1 ∷ [])) ∷ ("b", node "b" (pos 1 ∷ pos 2 ∷ [])) ∷ [];
  interval = second;
  interval_min = second;
  interval_max = 60 * second;
  default_min = second;
  default_max = 60 * second;
  closed = [];
  pending = [];
  next = 2;
}

abbrev at_select : Worker
at_select = record {
  phase = Phase.waiting (some 0) (some 1);
  resolved = [];
  ticker_period = second;
  sent = [];
}

stop-may_not_end_example :
    (after : Worker × Manager) × Step reachable (at_select, stop manager) after
    × ((final : Worker × Manager) → Reach reachable after final → final.0.phase ≢ Phase.ended)
stop-may_not_end_example = stop-may_not_end reachable at_select manager 0 1 refl refl refl refl

remove_exit_nodes_by_peer_lem_example :
    (lookup "b" (remove_exit_nodes_by_peer (pos 1) manager).1.exit_nodes
      ≡ left (pos 1) (lookup "b" manager.exit_nodes))
    × ((n : ExitNode)
        → lookup "b" (remove_exit_nodes_by_peer (pos 1) manager).1.exit_nodes ≡ some n
        → elem (pos 1) n.site_ids ≡ false)
    × ((remove_exit_nodes_by_peer (pos 1) manager).0
          + length (remove_exit_nodes_by_peer (pos 1) manager).1.exit_nodes
        ≡ length manager.exit_nodes)
remove_exit_nodes_by_peer_lem_example =
    remove_exit_nodes_by_peer_lem (pos 1) manager "b" (refl, (refl, tt))

removed_test : (remove_exit_nodes_by_peer (pos 1) manager).0 ≡ 1
unfolding remove_exit_nodes_by_peer leave_nodes
removed_test = refl

abbrev set_up : Manager
set_up = set_server_holepunch_interval 5 9 (start new_manager).1

abbrev busy : Worker
busy = record at_select {
  resolved = record { remote_addr = "10.0.0.1"; public_key = "key"; endpoint_name = "a" } ∷ [];
}

-- the tick makes 9 of 5
doubled_test : (take_tick reachable set_up busy).1.interval ≡ 9
unfolding take_tick doubled is_longer set_server_holepunch_interval start new_manager
doubled_test = refl

Moves-IsWithin_example : IsWithin (take_tick reachable set_up busy).1
Moves-IsWithin_example = Moves-IsWithin {o = reachable} (
    Moves.then_move
      (Moves.then_move (Moves.then_move Moves.new (Move.started new_manager))
        (Move.set_interval 5 9 (start new_manager).1 (omega arith) (omega arith)))
      (Move.worked busy set_up (take_tick reachable set_up busy)
        (Step.ticks busy set_up (some 0) (some 1) refl)))
