-- ===== src/Clients/Tests.antt =====
-- The theorems on targets and bandwidth at concrete services.
use newt.Prelude.{
  ℕ, ◌≡◌, refl, true, false, some, none, Bool, List, [], ◌∷◌, String, pos, if◌then◌else◌, ◌==◌,
  string_eq, arith,
}
use newt.Subnet.{Prefix, masked}
use newt.Subnet.Listed.{list_bart}
use newt.Subnet.Table.{new_subnet_lookup}
use newt.Subnet.Table.Contents.{slice_at, last_rule}
use newt.Dnat.Frames.{frames}
use newt.Dnat.Tables.{no_tables}
use newt.Dnat.Packets.{ProxyHandler, replace_all_subnet_rules}
use newt.Clients.{
  Target, Certs, ParsePrefix, add_certs, set_certs, remove_certs, resolve_tls,
  resolve_source_prefixes, source_rules, target_rules, source_pairs, target_pairs, sync_targets,
  handle_update_target, ensure_sources, ensure_targets,
}
use newt.Clients.Rules.{ensure_targets-eq-sync_targets, slice_at-handle_update_target}
use newt.Clients.Bandwidth.{
  Float64, PeerReading, Readings, Line, report_each, report_each-IsGrowing,
  calculate_peer_bandwidth, read_lines, finish_peer, process_peer_bandwidth, keep_known,
  bytes_since,
}
use newt.Prelude.GoMap.{GoMap, insert, delete, elem, keys, elem-keys-insert, elem-keys-delete}
use newt.Clients.Peers.{
  Peer, IpcLine, is_plain, Device, FixKey, peer_lines, current_peers, desired_peers,
  add_peer_to_device, remove_unwanted, add_absent, sync_peers,
}
use newt.Clients.Peers.Sync.{elem-sync_peers}

abbrev net : ℕ → ℕ → Prefix
net value bits = record { wide = false; value = value; bits = bits }

-- three prefixes that parse, and no other
abbrev parse : ParsePrefix
parse s =
    if s == "10.0.0.0/8"
    then some (net 167772160 8)
    else if s == "10.1.0.0/16"
    then some (net 167837696 16)
    else if s == "192.168.0.0/16"
    then some (net 3232235520 16)
    else none

abbrev handler : ProxyHandler list_bart frames
handler = record {
  enabled = true;
  subnet_lookup = new_subnet_lookup list_bart;
  tables = no_tables;
  icmp_replies = [];
  blocked = false;
  injected = [];
  outbound = [];
}

-- From 10.0.0.0/8 and 10.1.0.0/16 to 192.168.0.0/16, with the certificate "c".
abbrev target : String → Target
target to = record {
  source_prefix = "";
  source_prefixes = "10.0.0.0/8" ∷ "10.1.0.0/16" ∷ [];
  dest_prefix = "192.168.0.0/16";
  rewrite_to = to;
  disable_icmp = false;
  port_range = [];
  resource_id = pos 4;
  protocol = "";
  http_targets = [];
  tls_cert = "inline";
  tls_key = "inline key";
  tls_cert_id = "c";
}

abbrev narrow : Target
narrow = record (target "b") { source_prefixes = []; source_prefix = "10.1.0.0/16" }

abbrev certs : Certs
certs = set_certs (record { id = "c"; cert = "sent"; key = "sent key" } ∷ [])

resolve_tls_sent : resolve_tls certs (target "a") ≡ record { cert = "sent"; key = "sent key" }
unfolding resolve_tls set_certs add_certs
resolve_tls_sent = refl

resolve_tls_removed :
    resolve_tls (remove_certs ("c" ∷ []) certs) (target "a")
    ≡ record { cert = "inline"; key = "inline key" }
unfolding resolve_tls set_certs add_certs remove_certs
resolve_tls_removed = refl

ensured : (ensure_targets list_bart frames parse certs (target "a" ∷ narrow ∷ []) handler).0 ≡ true
unfolding ensure_targets ensure_sources resolve_source_prefixes
ensured = refl

ensure_targets-eq-sync_targets_example :
    (ensure_targets list_bart frames parse certs (target "a" ∷ narrow ∷ []) handler).1
    ≡ sync_targets list_bart frames parse certs (target "a" ∷ narrow ∷ []) handler
ensure_targets-eq-sync_targets_example =
    ensure_targets-eq-sync_targets list_bart frames parse certs (target "a" ∷ narrow ∷ []) handler
      refl refl ensured

abbrev served : ProxyHandler list_bart frames
served = sync_targets list_bart frames parse certs (target "a" ∷ []) handler

slice_at-handle_update_target_example :
    slice_at list_bart
      (handle_update_target list_bart frames parse certs
        (target "a" ∷ [])
        (narrow ∷ [])
        served).subnet_lookup
      (net 167772160 8)
      (net 3232235520 16)
    ≡ []
unfolding target_rules target_pairs source_pairs resolve_source_prefixes source_rules last_rule
    sync_targets replace_all_subnet_rules masked
slice_at-handle_update_target_example =
    slice_at-handle_update_target list_bart frames parse certs (target "a" ∷ []) (narrow ∷ [])
      served (net 167772160 8) (net 3232235520 16) refl

-- a conversion that rounds nothing
abbrev exact : Float64
exact = record { of_int = λ n. n; of_int-exact = λ n h. refl; of_int-positive = λ n h. h }

abbrev reading : ℕ → ℕ → ℕ → PeerReading
reading rx tx at = record { bytes_received = rx; bytes_transmitted = tx; last_checked = at }

abbrev readings : Readings
readings = ("k", reading 100 10 1) ∷ []

report_each-IsGrowing_example :
    (report_each exact "k" (reading 100 30 2 ∷ reading 400 30 3 ∷ []) readings).0 ≡ (300, 20)
report_each-IsGrowing_example =
    report_each-IsGrowing exact "k" (reading 100 10 1) (reading 100 30 2 ∷ reading 400 30 3 ∷ [])
      readings refl
      (omega arith, omega arith, omega arith, (omega arith, omega arith, omega arith, tt))
      (omega arith) (omega arith)

-- The counters of "k" begin anew, and "gone" is no longer a peer.
calculate_peer_bandwidth_restart :
    calculate_peer_bandwidth exact 2
      (Line.public_key "k" ∷ Line.rx_bytes 7 ∷ Line.tx_bytes 12 ∷ Line.other_line ∷ [])
      (("gone", reading 1 1 1) ∷ readings)
    ≡ (record { public_key = "k"; bytes_in = 7; bytes_out = 2 } ∷ [], ("k", reading 7 12 2) ∷ [])
unfolding calculate_peer_bandwidth read_lines finish_peer process_peer_bandwidth keep_known
    bytes_since
calculate_peer_bandwidth_restart = refl

abbrev is_update : List IpcLine → Bool
is_update (IpcLine.update_only ∷ l) = true
is_update _ = false

-- A device that keeps the lines of its peers, with the key "own".
abbrev listed_set : List IpcLine → GoMap String (List IpcLine) → Bool × GoMap String (List IpcLine)
listed_set [] s = (false, s)
listed_set (IpcLine.public_key k ∷ l) s = (
  true,
  if is_plain l
      then (if k == "own" then s else insert k l s)
      else if is_update l
      then s
      else delete k s,
)
listed_set (_ ∷ l) s = (false, s)

abbrev listed : Device
listed = record {
  State = GoMap String (List IpcLine);
  own_key = "own";
  ipc_set = listed_set;
  peer_keys = λ s. keys s;
  peer_keys-set = λ k j l s plain other ok. ground (arith, elem-keys-insert k j l s);
  peer_keys-remove = λ k j s ok. elem-keys-delete k j s;
  peer_keys-update = λ k j l s plain ok. refl;
}

-- "bad" does not parse
abbrev fix : FixKey
fix k = if k == "bad" then none else some k

abbrev peer : String → Peer
peer k = record { public_key = k; allowed_ips = "10.0.0.2/32" ∷ []; endpoint = "" }

abbrev old_peers : GoMap String (List IpcLine)
old_peers = ("a", []) ∷ ("b", []) ∷ []

elem-sync_peers_example :
    elem "c" (keys (sync_peers fix listed (peer "b" ∷ peer "bad" ∷ peer "c" ∷ []) old_peers).1)
    ≡ true
unfolding sync_peers add_absent remove_unwanted add_peer_to_device peer_lines current_peers
    desired_peers
elem-sync_peers_example =
    elem-sync_peers fix listed "c" (peer "b" ∷ peer "bad" ∷ peer "c" ∷ []) old_peers refl refl
