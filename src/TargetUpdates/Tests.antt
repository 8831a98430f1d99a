-- ===== src/TargetUpdates/Tests.antt =====
-- newt/targets.go and newt/data.go: concrete targets and syncs.
use newt.Prelude.{◌≡◌, refl, true, none, some, [], ◌∷◌, false, pos, arith, int_eq, string_eq}
use newt.HostPort.{text, split_host_port, join_host_port}
use newt.Numeral.{scan_int}
use newt.Proxy.{ProxyManager, Net}
use newt.Proxy.Targets.{target_of}
use newt.TargetUpdates.{parse_target_string, update_targets}
use newt.TargetUpdates.Reparse.{
  IsTarget, target_text, parse_target_string-again, parse_target_string-IsTarget,
}
use newt.TargetUpdates.Store.{Kind, forwards}
use newt.TargetUpdates.Sync.{desired_from, handle_sync, sync_kind}
use newt.TargetUpdates.Sync.Exact.{handle_sync-exact}
use newt.TargetUpdates.Sync.Served.{IsServing}
use newt.Proxy.Host.{host}
use newt.Proxy.Serving.{served}
use newt.TargetUpdates.Sync.Bracketed.{sync_kind-bracketed}

parses : parse_target_string (text "8080:web:80") ≡ some (pos 8080, text "web:80")
unfolding parse_target_string split_host_port join_host_port scan_int
parses = refl

-- what follows the digits of the port is not read
parses_rest : parse_target_string (text " +80x:[::1]:80") ≡ some (pos 80, text "[::1]:80")
unfolding parse_target_string split_host_port join_host_port scan_int
parses_rest = refl

parse_target_string-again_example :
    parse_target_string (target_text (pos 80) (text "[::1]:80")) ≡ some (pos 80, text "[::1]:80")
parse_target_string-again_example =
    parse_target_string-again (text " +80x:[::1]:80") (pos 80) (text "[::1]:80") parses_rest

abbrev working : Net
working = host [] []

abbrev manager : ProxyManager
manager = record {
  has_net = true;
  native_listen_ip = "";
  tcp_targets = ("10.0.0.1", (pos 8080, text "web:80") ∷ (pos 22, text "ssh:22") ∷ []) ∷ [];
  udp_targets = [];
  listeners =
      (record { id = 0; port = pos 8080; target_addr = text "web:80" })
      ∷ (record { id = 1; port = pos 22; target_addr = text "ssh:22" })
      ∷ [];
  udp_conns = [];
  running = true;
  blocked = false;
  next = 2;
  closed = [];
}

web : IsTarget (pos 8080) (text "web:80")
web = parse_target_string-IsTarget (text "8080:web:80") (pos 8080) (text "web:80") parses

ssh : IsTarget (pos 22) (text "ssh:22")
unfolding parse_target_string split_host_port join_host_port scan_int
ssh = parse_target_string-IsTarget (text "22:ssh:22") (pos 22) (text "ssh:22") refl

dns : IsTarget (pos 53) (text "dns:53")
unfolding parse_target_string split_host_port join_host_port scan_int
dns = parse_target_string-IsTarget (text "53:dns:53") (pos 53) (text "dns:53") refl

manager-IsServing : IsServing "10.0.0.1" manager
manager-IsServing = record {
  running = refl;
  backed = refl;
  tcp_apart = (refl, (refl, tt));
  udp_apart = tt;
  tcp = λ k. refl;
  udp = λ k. refl;
}

abbrev synced : ProxyManager
synced =
    handle_sync none working "10.0.0.1" (text "8080:web:80" ∷ []) (text "53:dns:53" ∷ []) manager

-- the listener on port 22 is closed
handle_sync-exact_example :
    (synced.running ≡ true)
    × (served (pos 22) synced.listeners ≡ none)
    × (served (pos 22) synced.udp_conns ≡ none)
    × (target_of "10.0.0.1" (pos 22) synced.tcp_targets ≡ none)
    × (target_of "10.0.0.1" (pos 22) synced.udp_targets ≡ none)
unfolding desired_from scan_int
handle_sync-exact_example =
    handle_sync-exact working "10.0.0.1" (text "8080:web:80" ∷ []) (text "53:dns:53" ∷ []) manager
      (pos 22) manager-IsServing (web, (ssh, tt)) tt (web, tt) (dns, tt) (refl, tt) (refl, tt)

six : IsTarget (pos 80) (text "[::1]:80")
six = record {
  number = 80;
  is_number = refl;
  low = omega arith;
  high = omega arith;
  host = text "::1";
  target_port = text "80";
  parts = record {
    open_host = refl;
    close_host = refl;
    colon_port = refl;
    open_port = refl;
    close_port = refl;
  };
  joined = unfold join_host_port in refl;
  some_host = λ h. cc;
  some_port = λ h. cc;
}

sync_kind-bracketed_example :
    (forwards Kind.tcp "10.0.0.1"
        (pos 80)
        (update_targets none working "add" "10.0.0.1" "tcp"
          (target_text (pos 80) (text "[::1]:80") ∷ [])
          manager).1
      ≡ some (text "[::1]:80"))
    × (forwards Kind.tcp "10.0.0.1" (pos 80) (
          sync_kind none working "10.0.0.1" Kind.tcp manager.tcp_targets
            (target_text (pos 80) (text "[::1]:80") ∷ [])
            manager)
        ≡ none)
unfolding six
sync_kind-bracketed_example =
    sync_kind-bracketed working "10.0.0.1" Kind.tcp (pos 80) (text "[::1]:80") manager six refl
      (web, (ssh, tt))
