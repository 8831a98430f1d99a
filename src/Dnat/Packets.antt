-- ===== src/Dnat/Packets.antt =====
-- netstack2/proxy.go: `ProxyHandler` on the packet path. The endpoint of the proxy stack is the
-- packets injected into it and those that it offers for reading; a call that panics gives `none`.
-- The receiver is not nil.
pub mod Return
use newt.Prelude.{
  ◌-◌, ℕ, ◌+◌, Bool, true, false, not, Option, none, some, List, [], ◌∷◌, ◌++◌, if◌then◌else◌, ltb,
  leb, nat_eq, ◌==◌, length, ◌&&◌,
}
use newt.Prelude.GoMap.{lookup}
use newt.Subnet.{Addr, Bart, Prefix, SubnetRule}
use newt.Subnet.Table.{
  Protocol, SubnetLookup, new_subnet_lookup, add_subnet, remove_subnet, replace_all, match_rule,
}
use newt.Dnat.{
  complement, to_uint16, ConnKey, ReverseConnKey, reverse_eq, is_loopback, as4, addr_from4, View,
  Ipv4,
}
use newt.Dnat.Tables.{
  NatTables, no_tables, Resolver, Translation, translate, note_resource, dest_key,
}

-- the numbers of TCP, UDP and the two ICMP protocols
unfoldable pub protocol_of : ℕ → Protocol
protocol_of n =
    if n == 6
    then Protocol.tcp
    else if n == 17
    then Protocol.udp
    else if n == 1
    then Protocol.icmp4
    else if n == 58
    then Protocol.icmp6
    else Protocol.other n

-- the destination port, or nothing where the packet is too short for its transport header
unfoldable pub destination_port : View → Option ℕ
destination_port v =
    if v.protocol == 6
    then (if ltb v.size (v.header_len + 20) then none else some v.dest_port)
    else if v.protocol == 17
    then (if ltb v.size (v.header_len + 8) then none else some v.dest_port)
    else some 0

unfoldable pub source_port : View → ℕ
source_port v =
    if v.protocol == 6 then v.source_port else if v.protocol == 17 then v.source_port else 0

-- the ports of a reply, 0 where there is none
abbrev has_ports : View → Bool
has_ports v =
    if v.protocol == 6
    then leb (v.header_len + 20) v.size
    else if v.protocol == 17
    then leb (v.header_len + 8) v.size
    else false

-- the connection of a packet whose destination port is `port`
unfoldable pub connection_key : View → ℕ → ConnKey
unfolding source_port
connection_key v port = record {
  src = addr_from4 v.source;
  src_port = source_port v;
  dst = addr_from4 v.dest;
  dst_port = port;
  proto = v.protocol;
}

-- the key under which a reply looks for its connection
unfoldable pub reply_lookup : View → ReverseConnKey
unfolding has_ports
reply_lookup v = record {
  rewritten_to = addr_from4 v.source;
  original_src = addr_from4 v.dest;
  original_src_port = if has_ports v then v.dest_port else 0;
  original_dst_port = if has_ports v then v.source_port else 0;
  proto = v.protocol;
}

module _ (bart : Bart) (ip : Ipv4) where
  open ip use {
    Packet, view, set_source, set_dest, set_checksum, calculate_checksum, set_tcp_checksum,
    set_udp_checksum, pseudo_header_checksum, checksum,
  }

  pub record ProxyHandler : Type 0 where
    pub enabled : Bool
    pub subnet_lookup : SubnetLookup bart
    pub tables : NatTables
    pub icmp_replies : List Packet
    pub blocked : Bool
    pub injected : List Packet
    pub outbound : List Packet

  -- `NewProxyHandler`, without the stack and its forwarders
  unfoldable pub new_proxy_handler : Bool → Bool → Bool → Option ProxyHandler
  new_proxy_handler tcp udp icmp =
      if not tcp && (not udp && not icmp)
      then none
      else some (record {
        enabled = true;
        subnet_lookup = new_subnet_lookup bart;
        tables = no_tables;
        icmp_replies = [];
        blocked = false;
        injected = [];
        outbound = [];
      })

  unfoldable pub add_subnet_rule : SubnetRule → ProxyHandler → ProxyHandler
  add_subnet_rule rule p =
      if p.enabled then record p { subnet_lookup = add_subnet bart rule p.subnet_lookup } else p

  unfoldable pub remove_subnet_rule : Prefix → Prefix → ProxyHandler → ProxyHandler
  remove_subnet_rule source dest p =
      if p.enabled
      then record p { subnet_lookup = remove_subnet bart source dest p.subnet_lookup }
      else p

  unfoldable pub replace_all_subnet_rules : List SubnetRule → ProxyHandler → ProxyHandler
  replace_all_subnet_rules rules p =
      if p.enabled then record p { subnet_lookup = replace_all bart rules p.subnet_lookup } else p

  unfoldable pub set_blocked : Bool → ProxyHandler → ProxyHandler
  set_blocked v p = record p { blocked = v }

  unfoldable pub sum_header : Packet → Packet
  sum_header p = let p0 = set_checksum 0 p in set_checksum (complement (calculate_checksum p0)) p0

  -- the sum over the pseudo header and what is behind the IPv4 header
  unfoldable pub transport_sum : ℕ → Packet → ℕ
  transport_sum proto p =
      let v = view p in
      checksum p (pseudo_header_checksum proto v.source v.dest (to_uint16 (v.size - v.header_len)))

  unfoldable pub sum_tcp : Packet → Packet
  unfolding transport_sum
  sum_tcp p = let p0 = set_tcp_checksum 0 p in set_tcp_checksum (complement (transport_sum 6 p0)) p0

  unfoldable pub sum_udp : Packet → Packet
  unfolding transport_sum
  sum_udp p =
      let p0 = set_udp_checksum 0 p in set_udp_checksum (complement (transport_sum 17 p0)) p0

  -- the checksums after an address was written
  unfoldable pub sum_packet : Packet → Packet
  unfolding sum_header sum_tcp sum_udp
  sum_packet p =
      let p1 = sum_header p in
      let v = view p1 in
      if v.protocol == 6
      then (if leb (v.header_len + 20) v.size then sum_tcp p1 else p1)
      else if v.protocol == 17
      then (if leb (v.header_len + 8) v.size then sum_udp p1 else p1)
      else p1

  -- The inner `none` is the `nil` of a packet that is too short.
  unfoldable pub rewrite_packet_destination : Packet → Addr → Option (Option Packet)
  unfolding sum_packet
  rewrite_packet_destination p to =
      if ltb (view p).size 20
      then some none
      else elim (as4 to) [ none ↦ none | some a ↦ some (some (sum_packet (set_dest a p))) ]

  unfoldable pub rewrite_packet_source : Packet → Addr → Option (Option Packet)
  unfolding sum_packet
  rewrite_packet_source p to =
      if ltb (view p).size 20
      then some none
      else elim (as4 to) [ none ↦ none | some a ↦ some (some (sum_packet (set_source a p))) ]

  abbrev inject : Packet → ProxyHandler → ProxyHandler
  inject q p = record p { injected = p.injected ++ q ∷ [] }

  -- the packet that goes on to the proxy stack
  unfoldable pub redirect : Translation → Packet → Option (Option Packet)
  unfolding rewrite_packet_destination
  redirect Translation.plain q = some (some q)
  redirect Translation.unresolved q = some (some q)
  redirect (Translation.translated to) q =
      if is_loopback to then some (some q) else rewrite_packet_destination q to

  unfoldable pub handle_incoming_packet :
      Resolver → Packet → ProxyHandler → Option (Bool × ProxyHandler)
  unfolding redirect
  handle_incoming_packet r q p =
      let v = view q in
      if not p.enabled
      then some (false, p)
      else if ltb v.size 20
      then some (false, p)
      else if not (v.version == 4)
      then some (false, p)
      else elim (destination_port v) [
        | none ↦ some (false, p)
        | some port ↦
            elim (match_rule bart p.subnet_lookup (addr_from4 v.source) (addr_from4 v.dest) port
              (protocol_of v.protocol)) [
                | none ↦ some (false, p)
                | some rule ↦
                    let (to, t) = translate r (connection_key v port) rule p.tables in
                    let p' = record p { tables = t } in
                    elim (redirect to q) [
                      | none ↦ none
                      | some none ↦ some (false, p')
                      | some (some q') ↦ some (true, inject q' p')
                    ]
              ]
      ]

  -- the packet that goes back through the tunnel in place of one that the proxy stack sends
  unfoldable pub restore_source : NatTables → Packet → Option Packet
  unfolding rewrite_packet_source
  restore_source t q =
      let v = view q in
      if ltb v.size 20
      then some q
      else if not (v.version == 4)
      then some q
      else if v.protocol == 1
      then some q
      else elim (lookup (reply_lookup v) t.reverse_nat_table) [
        | none ↦ some q
        | some e ↦ elim (rewrite_packet_source q e.original_dst) [
          | none ↦ none
          | some none ↦ some q
          | some (some q') ↦ some q'
        ]
      ]

  unfoldable pub read_outgoing_packet : ProxyHandler → Option (Option Packet × ProxyHandler)
  unfolding restore_source
  read_outgoing_packet p = if not p.enabled then some (none, p) else elim p.icmp_replies [
    | q ∷ more ↦ some (some q, record p { icmp_replies = more })
    | [] ↦ elim p.outbound [
      | [] ↦ some (none, p)
      | q ∷ more ↦ elim (restore_source p.tables q) [
        | none ↦ none
        | some q' ↦ some (some q', record p { outbound = more })
      ]
    ]
  ]

  -- The buffer holds 256 replies.
  unfoldable pub queue_icmp_reply : Packet → ProxyHandler → Bool × ProxyHandler
  queue_icmp_reply q p =
      if not p.enabled
      then (false, p)
      else if ltb (length p.icmp_replies) 256
      then (true, record p { icmp_replies = p.icmp_replies ++ q ∷ [] })
      else (false, p)
