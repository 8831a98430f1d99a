-- ===== src/Proxy/Tests.antt =====
-- proxy/manager.go: runs of the manager.
use newt.Prelude.{arith, List, ◌≡◌, refl, true, false, none, [], ◌∷◌, pos, int_eq}
use newt.HostPort.{text}
use newt.Proxy.{
  ProxyManager, Net, start, stop, start_all, start_each, start_target, start_tcp, start_udp,
  start_rest, ports,
}
use newt.Proxy.Counters.{
  Kind, bump, set_tunnel_id, clear_tunnel_id, set_async_bytes, count_written, flush_tick,
  flush_each, flush_entry,
}
use newt.Proxy.Counters.Orphans.{Event, run_all, run}
use newt.Proxy.Counters.Stranded.{no_counters, run_all-cleared}
use newt.Proxy.Listening.{start-listens}
use newt.Proxy.Host.{host}

abbrev working : Net
working = host [] []

-- the UDP port is taken
abbrev half : Net
half = host [] (pos 53 ∷ [])

abbrev manager : ProxyManager
manager = record {
  has_net = true;
  native_listen_ip = "";
  tcp_targets = ("10.0.0.1", (pos 80, text "web:80") ∷ (pos 22, text "ssh:22") ∷ []) ∷ [];
  udp_targets = ("10.0.0.1", (pos 53, text "dns:53") ∷ []) ∷ [];
  listeners = [];
  udp_conns = [];
  running = false;
  blocked = false;
  next = 0;
  closed = [];
}

-- the two TCP listeners stay open
left_open_test : ports (stop (start half manager).1).listeners ≡ pos 80 ∷ pos 22 ∷ []
unfolding start start_all start_rest start_each start_target start_tcp start_udp stop
left_open_test = refl

start-listens_example :
    ((start working manager).0 ≡ none)
    × ((start working manager).1.running ≡ true)
    × (ports (start working manager).1.listeners ≡ pos 80 ∷ pos 22 ∷ [])
    × (ports (start working manager).1.udp_conns ≡ pos 53 ∷ [])
start-listens_example =
    start-listens working manager refl refl
      (
        (80, refl, omega arith, omega arith),
        refl,
        refl,
        ((22, refl, omega arith, omega arith), refl, refl, tt),
      )
      ((53, refl, omega arith, omega arith), refl, refl, tt)

abbrev earlier : List Event
earlier =
    Event.set_async true ∷ Event.set_tunnel "a" ∷ Event.written 0 Kind.in_tcp 5 ∷ Event.ticked ∷ []

-- the tunnel is set again while a connection writes
abbrev later : List Event
later =
    Event.set_tunnel "a" ∷ Event.written 0 Kind.in_tcp 7 ∷ Event.ticked ∷ Event.clear_tunnel ∷ []

run_all-cleared_example :
    (run_all later (clear_tunnel_id (run_all earlier no_counters))).entries 0
    ≡ (λ k. bump Kind.in_tcp 7 (λ j. 0) k)
unfolding run_all run set_async_bytes set_tunnel_id count_written flush_tick flush_each flush_entry
run_all-cleared_example = run_all-cleared earlier later 0 refl refl
