-- ===== src/Proxy.antt =====
-- proxy/manager.go: the targets and listeners of `ProxyManager`. A listener is its number, its port
-- and the address that its handler forwards to. `listeners` and `udp_conns` are the open ones, and
-- `closed` the numbers of those closed. The counters of bytes have a state of their own, and the
-- handlers are not modelled.
pub mod Targets
pub mod Host
pub mod Serving
pub mod Listening
pub mod Counters
mod Tests
use newt.Prelude.{
  ℕ, ◌+◌, ◌≤◌, ◌≡◌, map, pos, String, Bool, true, false, ◌||◌, not, Option, none, some, List, [],
  ◌∷◌, ◌++◌, ℤ, ◌==◌, string_eq, int_eq, if◌then◌else◌, from_option,
}
use newt.Prelude.GoMap.{GoMap, lookup, insert, delete, elem}
use newt.HostPort.{Text}

abbrev pub Targets : Type 0
Targets = GoMap String (GoMap ℤ Text)

pub record Listener : Type 0 where
  pub id : ℕ
  pub port : ℤ
  pub target_addr : Text

pub record ProxyManager : Type 0 where
  pub has_net : Bool
  pub native_listen_ip : String
  pub tcp_targets : Targets
  pub udp_targets : Targets
  pub listeners : List Listener
  pub udp_conns : List Listener
  pub running : Bool
  pub blocked : Bool
  pub next : ℕ
  pub closed : List ℕ

pub data ProxyError : Type 0 where
  unsupported_proto : ProxyError
  no_backing : ProxyError
  listen_failed : ProxyError
  not_found : ProxyError

abbrev pub ports : List Listener → List ℤ
ports ls = map (λ l. l.port) ls

-- a number that names one port to listen on
abbrev pub IsPort : ℤ → Type 0
IsPort port = (n : ℕ) × (port ≡ pos n) × (1 ≤ n) × (n ≤ 65535)

-- `ListenTCP` and `ListenUDP` of the netstack or the host: the port listened on, unless they fail,
-- where the manager listens on the given ports already and others on those taken. A free port can be
-- listened on, and one that the manager listens on cannot once more.
pub record Net : Type 0 where
  pub taken_tcp : List ℤ
  pub taken_udp : List ℤ
  pub listen_tcp : List ℤ → ℤ → Option ℤ
  pub listen_udp : List ℤ → ℤ → Option ℤ
  pub listen_tcp-free :
      (used : List ℤ) (port : ℤ)
      → IsPort port
      → elem port used ≡ false
      → elem port taken_tcp ≡ false
      → listen_tcp used port ≡ some port
  pub listen_udp-free :
      (used : List ℤ) (port : ℤ)
      → IsPort port
      → elem port used ≡ false
      → elem port taken_udp ≡ false
      → listen_udp used port ≡ some port
  pub listen_tcp-in_use :
      (used : List ℤ) (port : ℤ) → elem port used ≡ true → listen_tcp used port ≡ none
  pub listen_udp-in_use :
      (used : List ℤ) (port : ℤ) → elem port used ≡ true → listen_udp used port ≡ none

-- `NewProxyManager`, `NewProxyManagerNative` with an address and `NewProxyManagerWithoutTNet`
unfoldable pub new_proxy_manager : Bool → String → ProxyManager
new_proxy_manager has_net native_ip = record {
  has_net = has_net;
  native_listen_ip = native_ip;
  tcp_targets = [];
  udp_targets = [];
  listeners = [];
  udp_conns = [];
  running = false;
  blocked = false;
  next = 0;
  closed = [];
}

unfoldable pub set_tnet : Bool → ProxyManager → ProxyManager
set_tnet given pm = record pm { has_net = given }

unfoldable pub set_blocked : Bool → ProxyManager → ProxyManager
set_blocked v pm = record pm { blocked = v }

-- whether there is something to listen on
abbrev pub is_backed : ProxyManager → Bool
is_backed pm = pm.has_net || not (pm.native_listen_ip == "")

unfoldable pub start_tcp : Net → ℤ → Text → ProxyManager → Option ProxyError × ProxyManager
start_tcp net port target pm =
    if is_backed pm
    then elim (net.listen_tcp (ports pm.listeners) port) [
      | none ↦ (some ProxyError.listen_failed, pm)
      | some p ↦ (
        none,
        record pm {
          listeners =
              pm.listeners ++ (record { id = pm.next; port = p; target_addr = target }) ∷ [];
          next = pm.next + 1;
        },
      )
    ]
    else (some ProxyError.no_backing, pm)

unfoldable pub start_udp : Net → ℤ → Text → ProxyManager → Option ProxyError × ProxyManager
start_udp net port target pm =
    if is_backed pm
    then elim (net.listen_udp (ports pm.udp_conns) port) [
      | none ↦ (some ProxyError.listen_failed, pm)
      | some p ↦ (
        none,
        record pm {
          udp_conns =
              pm.udp_conns ++ (record { id = pm.next; port = p; target_addr = target }) ∷ [];
          next = pm.next + 1;
        },
      )
    ]
    else (some ProxyError.no_backing, pm)

unfoldable pub start_target :
    Net → String → ℤ → Text → ProxyManager → Option ProxyError × ProxyManager
unfolding start_tcp start_udp
start_target net proto port target pm =
    if proto == "tcp"
    then start_tcp net port target pm
    else if proto == "udp"
    then start_udp net port target pm
    else (some ProxyError.unsupported_proto, pm)

abbrev pub put : String → ℤ → Text → Targets → Targets
put ip port target m = insert ip (insert port target (from_option [] (lookup ip m))) m

unfoldable pub add_target :
    Net → String → String → ℤ → Text → ProxyManager → Option ProxyError × ProxyManager
unfolding start_target
add_target net proto ip port target pm =
    if proto == "tcp"
    then (let pm' = record pm { tcp_targets = put ip port target pm.tcp_targets } in
        if pm.running then start_target net proto port target pm' else (none, pm'))
    else if proto == "udp"
    then (let pm' = record pm { udp_targets = put ip port target pm.udp_targets } in
        if pm.running then start_target net proto port target pm' else (none, pm'))
    else (some ProxyError.unsupported_proto, pm)

-- the first listener on the port is closed and taken out
unfoldable pub without_port : ℤ → List Listener → List Listener
without_port port [] = []
without_port port (l ∷ ls) = if l.port == port then ls else l ∷ without_port port ls

unfoldable pub closed_on : ℤ → List Listener → List ℕ
closed_on port [] = []
closed_on port (l ∷ ls) = if l.port == port then l.id ∷ [] else closed_on port ls

unfoldable pub remove_target : String → String → ℤ → ProxyManager → Option ProxyError × ProxyManager
unfolding without_port closed_on
remove_target proto ip port pm =
    if proto == "tcp"
    then elim (lookup ip pm.tcp_targets) [
      | none ↦ (some ProxyError.not_found, pm)
      | some targets ↦ (
        none,
        record pm {
          tcp_targets = insert ip (delete port targets) pm.tcp_targets;
          listeners = without_port port pm.listeners;
          closed = closed_on port pm.listeners ++ pm.closed;
        },
      )
    ]
    else if proto == "udp"
    then elim (lookup ip pm.udp_targets) [
      | none ↦ (some ProxyError.not_found, pm)
      | some targets ↦ (
        none,
        record pm {
          udp_targets = insert ip (delete port targets) pm.udp_targets;
          udp_conns = without_port port pm.udp_conns;
          closed = closed_on port pm.udp_conns ++ pm.closed;
        },
      )
    ]
    else (some ProxyError.unsupported_proto, pm)

-- the loops of `Start`: the first error ends them
unfoldable pub start_each :
    Net → String → GoMap ℤ Text → ProxyManager → Option ProxyError × ProxyManager
unfolding start_target
start_each net proto [] pm = (none, pm)
start_each net proto ((port, target) ∷ rest) pm =
    let r = start_target net proto port target pm in
    elim r.0 [ some e ↦ (some e, r.1) | none ↦ start_each net proto rest r.1 ]

unfoldable pub start_all : Net → String → Targets → ProxyManager → Option ProxyError × ProxyManager
unfolding start_each
start_all net proto [] pm = (none, pm)
start_all net proto ((ip, targets) ∷ rest) pm =
    let r = start_each net proto targets pm in
    elim r.0 [ some e ↦ (some e, r.1) | none ↦ start_all net proto rest r.1 ]

-- the part of `Start` for the UDP targets
unfoldable pub start_rest : Net → ProxyManager → Option ProxyError × ProxyManager
unfolding start_all
start_rest net pm =
    let r = start_all net "udp" pm.udp_targets pm in
    elim r.0 [ some e ↦ (some e, r.1) | none ↦ (none, record r.1 { running = true }) ]

unfoldable pub start : Net → ProxyManager → Option ProxyError × ProxyManager
unfolding start_all start_rest
start net pm =
    if pm.running
    then (none, pm)
    else (let r = start_all net "tcp" pm.tcp_targets pm in
        elim r.0 [ some e ↦ (some e, r.1) | none ↦ start_rest net r.1 ])

-- the listeners are closed from the last to the first
unfoldable pub close_all : List Listener → List ℕ → List ℕ
close_all [] closed = closed
close_all (l ∷ ls) closed = l.id ∷ close_all ls closed

unfoldable pub stop : ProxyManager → ProxyManager
unfolding close_all
stop pm =
    if pm.running
    then record pm {
      running = false;
      closed = close_all pm.udp_conns (close_all pm.listeners pm.closed);
      listeners = [];
      udp_conns = [];
    }
    else pm

-- `GetTargets`: the maps are copied
unfoldable pub get_targets : ProxyManager → Targets × Targets
get_targets pm = (pm.tcp_targets, pm.udp_targets)
