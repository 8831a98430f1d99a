-- ===== src/Dnat/Packets/Return.antt =====
-- netstack2/proxy.go: a packet of a translated connection, and the reply to it.
use newt.Prelude.{
  inl, inr, ℕ, ◌≡◌, ◌≤◌, refl, true, false, some, none, List, [], ◌∷◌, ◌++◌, arith, ap, ◌∙◌, sym,
  ◌⊎◌, nat_eq, subst,
}
use newt.Prelude.GoMap.{lookup}
use newt.Subnet.{Addr, Bart, SubnetRule}
use newt.Subnet.Table.{match_rule}
use newt.Dnat.{NatState, conn_eq, reverse_eq, is_loopback, as4, addr_from4, View, Holds, Ipv4}
use newt.Dnat.Tables.{NatTables, no_tables, Resolver, Translation, translate, reverse_key}
use newt.Dnat.Tables.Reachable.{Reach, Reach-Paired}
use newt.Dnat.Packets.{
  protocol_of, destination_port, has_ports, connection_key, reply_lookup, source_port, ProxyHandler,
  sum_header, transport_sum, sum_tcp, sum_udp, sum_packet, rewrite_packet_destination,
  rewrite_packet_source, redirect, handle_incoming_packet, restore_source, read_outgoing_packet,
}

-- A packet of TCP or UDP that is long enough for its header.
pub record IsTransport (v : View) : Type 0 where
  pub version : v.version ≡ 4
  pub long : 20 ≤ v.size
  pub tcp_or_udp : (v.protocol ≡ 6) ⊎ (v.protocol ≡ 17)
  pub ports : has_ports v ≡ true

-- A reply to `v` from the address `to`, with a header of a valid length.
pub record IsReply (v : View) (to : Addr) (w : View) : Type 0 where
  pub transport : IsTransport w
  pub header : 20 ≤ w.header_len
  pub same_protocol : w.protocol ≡ v.protocol
  pub source : addr_from4 w.source ≡ to
  pub dest : w.dest ≡ v.source
  pub source_port : w.source_port ≡ v.dest_port
  pub dest_port : w.dest_port ≡ v.source_port

-- The addresses do not matter to it.
readdressed : (v : View) (a b : ℕ) → IsTransport v → IsTransport (record v { source = a; dest = b })
readdressed v a b t = record {
  version = t.version;
  long = t.long;
  tcp_or_udp = t.tcp_or_udp;
  ports = t.ports;
}

connection_key-dst : (v : View) (port : ℕ) → (connection_key v port).dst ≡ addr_from4 v.dest
unfolding connection_key
connection_key-dst v port = refl

module _ (bart : Bart) (ip : Ipv4) where
  open ip use {
    Packet, view, set_source, set_dest, set_checksum, calculate_checksum, set_tcp_checksum,
    set_udp_checksum, header_valid, transport_valid, view-set_source, view-set_dest,
    view-set_checksum, view-set_tcp_checksum, view-set_udp_checksum, header_valid-set_checksum,
    header_valid-set_tcp_checksum, header_valid-set_udp_checksum, transport_valid-set_tcp_checksum,
    transport_valid-set_udp_checksum,
  }

  view-sum_header : (q : Packet) → 20 ≤ (view q).size → view (sum_header bart ip q) ≡ view q
  unfolding sum_header
  view-sum_header q h =
      view-set_checksum _ (set_checksum 0 q) (rw (view-set_checksum 0 q h) h)
      ∙ view-set_checksum 0 q h

  header_valid-sum_header :
      (q : Packet) → Holds 0 (view q) → header_valid (sum_header bart ip q) ≡ true
  unfolding sum_header
  header_valid-sum_header q h = header_valid-set_checksum q h

  -- What the computed checksum of TCP or UDP makes of a packet.
  record IsSummed (q s : Packet) : Type 0 where
    fields : view s ≡ view q
    header : header_valid s ≡ header_valid q
    transport : transport_valid s ≡ true

  sum_tcp-IsSummed :
      (q : Packet) → Holds 20 (view q) → (view q).protocol ≡ 6 → IsSummed q (sum_tcp bart ip q)
  unfolding sum_tcp transport_sum
  sum_tcp-IsSummed q h tcp =
      let q0 = set_tcp_checksum 0 q in
      let v0 : view q0 ≡ view q = view-set_tcp_checksum 0 q h in
      let h0 : Holds 20 (view q0) = subst (Holds 20) (sym v0) h in
      record {
        fields = view-set_tcp_checksum _ q0 h0 ∙ v0;
        header = header_valid-set_tcp_checksum _ q0 h0 ∙ header_valid-set_tcp_checksum 0 q h;
        transport = rw (v0, sum_tcp, transport_sum) (transport_valid-set_tcp_checksum q h tcp);
      }

  sum_udp-IsSummed :
      (q : Packet) → Holds 8 (view q) → (view q).protocol ≡ 17 → IsSummed q (sum_udp bart ip q)
  unfolding sum_udp transport_sum
  sum_udp-IsSummed q h udp =
      let q0 = set_udp_checksum 0 q in
      let v0 : view q0 ≡ view q = view-set_udp_checksum 0 q h in
      let h0 : Holds 8 (view q0) = subst (Holds 8) (sym v0) h in
      record {
        fields = view-set_udp_checksum _ q0 h0 ∙ v0;
        header = header_valid-set_udp_checksum _ q0 h0 ∙ header_valid-set_udp_checksum 0 q h;
        transport = rw (v0, sum_udp, transport_sum) (transport_valid-set_udp_checksum q h udp);
      }

  sum_packet-tcp :
      (q : Packet)
      → Holds 20 (view (sum_header bart ip q))
      → (view (sum_header bart ip q)).protocol ≡ 6
      → sum_packet bart ip q ≡ sum_tcp bart ip (sum_header bart ip q)
  unfolding sum_packet
  sum_packet-tcp q h tcp = ground arith

  sum_packet-udp :
      (q : Packet)
      → Holds 8 (view (sum_header bart ip q))
      → (view (sum_header bart ip q)).protocol ≡ 17
      → sum_packet bart ip q ≡ sum_udp bart ip (sum_header bart ip q)
  unfolding sum_packet
  sum_packet-udp q h udp = ground arith

  -- A packet with another address in one field and both checksums valid.
  pub record Rewritten (v : View) (q : Packet) : Type 0 where
    pub fields : view q ≡ v
    pub header : header_valid q ≡ true
    pub transport : transport_valid q ≡ true

  IsSummed-Rewritten :
      (v : View) (q p s : Packet)
      → view q ≡ v
      → header_valid q ≡ true
      → IsSummed q s
      → p ≡ s
      → Rewritten v p
  IsSummed-Rewritten v q p s e ok h same =
      rw same (record { fields = h.fields ∙ e; header = h.header ∙ ok; transport = h.transport })

  sum_packet-Rewritten :
      (v : View) (q : Packet)
      → view q ≡ v
      → IsTransport v
      → 20 ≤ v.header_len
      → Rewritten v (sum_packet bart ip q)
  unfolding has_ports
  sum_packet-Rewritten v q e t long =
      let q1 = sum_header bart ip q in
      let e1 : view q1 ≡ v = view-sum_header q (ground (arith, e, t.long)) ∙ e in
      let holds0 : Holds 0 (view q) =
        subst (Holds 0) (sym e) (long, ground (arith, t.ports, t.tcp_or_udp)) in
      let ok = header_valid-sum_header q holds0 in
      elim t.tcp_or_udp [
        | inl tcp ↦
            let p1 = ap (λ (w : View). w.protocol) e1 ∙ tcp in
            let h : Holds 20 (view q1) =
              subst (Holds 20) (sym e1) (long, ground (arith, t.ports, tcp)) in
            IsSummed-Rewritten v q1 (sum_packet bart ip q) (sum_tcp bart ip q1) e1 ok
              (sum_tcp-IsSummed q1 h p1) (sum_packet-tcp q h p1)
        | inr udp ↦
            let p1 = ap (λ (w : View). w.protocol) e1 ∙ udp in
            let h : Holds 8 (view q1) =
              subst (Holds 8) (sym e1) (long, ground (arith, t.ports, udp)) in
            IsSummed-Rewritten v q1 (sum_packet bart ip q) (sum_udp bart ip q1) e1 ok
              (sum_udp-IsSummed q1 h p1) (sum_packet-udp q h p1)
      ]

  rewrite_destination-eq :
      (q : Packet) (to : Addr)
      → 20 ≤ (view q).size
      → to.wide ≡ false
      → rewrite_packet_destination bart ip q to
        ≡ some (some (sum_packet bart ip (set_dest to.value q)))
  unfolding rewrite_packet_destination as4
  rewrite_destination-eq q to h narrow = ground arith

  rewrite_source-eq :
      (q : Packet) (to : Addr)
      → 20 ≤ (view q).size
      → to.wide ≡ false
      → rewrite_packet_source bart ip q to
        ≡ some (some (sum_packet bart ip (set_source to.value q)))
  unfolding rewrite_packet_source as4
  rewrite_source-eq q to h narrow = ground arith

  destination_port-eq : (v : View) → IsTransport v → destination_port v ≡ some v.dest_port
  unfolding destination_port
  destination_port-eq v t = ground arith

  -- A TCP or UDP packet with a header of a valid length, whose connection is translated to an IPv4 address, not a loopback address,
  -- is injected with that destination and valid checksums, and is otherwise the packet that came.
  pub handle_incoming_packet-translated :
      (r : Resolver) (q : Packet) (p : ProxyHandler bart ip) (rule : SubnetRule) (to : Addr)
      (t : NatTables)
      → p.enabled ≡ true
      → IsTransport (view q)
      → 20 ≤ (view q).header_len
      → match_rule bart p.subnet_lookup
          (addr_from4 (view q).source)
          (addr_from4 (view q).dest)
          (view q).dest_port
          (protocol_of (view q).protocol)
        ≡ some rule
      → translate r (connection_key (view q) (view q).dest_port) rule p.tables
        ≡ (Translation.translated to, t)
      → is_loopback to ≡ false
      → to.wide ≡ false
      → (q' : Packet) × (handle_incoming_packet bart ip r q p
          ≡ some (true, record p { tables = t; injected = p.injected ++ q' ∷ [] }))
        × Rewritten (record (view q) { dest = to.value }) q'
  unfolding handle_incoming_packet redirect
  handle_incoming_packet-translated r q p rule to t on ok long matched translated away narrow = (
    sum_packet bart ip (set_dest to.value q),
    ground (arith, destination_port-eq (view q) ok, rewrite_destination-eq q to),
    sum_packet-Rewritten _ _ (view-set_dest to.value q ok.long) (readdressed (view q) _ _ ok) long,
  )

  reply_lookup-eq :
      (v w : View) (to : Addr)
      → IsTransport v
      → IsReply v to w
      → reply_lookup w ≡ reverse_key (connection_key v v.dest_port) to
  unfolding reply_lookup connection_key source_port
  reply_lookup-eq v w to t h = ground arith

  restore_source-reply :
      (q s : Packet) (t : NatTables) (e : NatState)
      → IsTransport (view q)
      → IsReply (view q) e.rewritten_to (view s)
      → e.original_dst ≡ addr_from4 (view q).dest
      → lookup
          (reverse_key (connection_key (view q) (view q).dest_port) e.rewritten_to)
          t.reverse_nat_table
        ≡ some e
      → restore_source bart ip t s ≡ some (sum_packet bart ip (set_source (view q).dest s))
  unfolding restore_source
  restore_source-reply q s t e ok h origin found =
      let key = reply_lookup-eq (view q) (view s) e.rewritten_to ok h in
      let to =
        rewrite_source-eq s e.original_dst h.transport.long (ap (λ (a : Addr). a.wide) origin) in
      ground (arith, key, to, h.transport.version, h.transport.long, h.transport.tcp_or_udp)

  -- Over packets and closings in any order that start from empty tables and leave no two connections
  -- with one reply key: the reply to a tracked connection leaves with the destination that the
  -- connection's packets had before translation as its source, with valid checksums, and otherwise as
  -- the proxy stack sent it.
  pub read_outgoing_packet-reply :
      (r : Resolver) (q s : Packet) (p : ProxyHandler bart ip) (e : NatState) (more : List Packet)
      → p.enabled ≡ true
      → p.icmp_replies ≡ []
      → p.outbound ≡ s ∷ more
      → Reach r no_tables p.tables
      → lookup (connection_key (view q) (view q).dest_port) p.tables.nat_table ≡ some e
      → IsTransport (view q)
      → IsReply (view q) e.rewritten_to (view s)
      → (s' : Packet) × (read_outgoing_packet bart ip p
          ≡ some (some s', record p { outbound = more }))
        × Rewritten (record (view s) { source = (view q).dest }) s'
  unfolding read_outgoing_packet
  read_outgoing_packet-reply r q s p e more on quiet sent reach tracked t h =
      let f = connection_key (view q) (view q).dest_port in
      let pair = Reach-Paired reach f e tracked in
      (
        sum_packet bart ip (set_source (view q).dest s),
        ground (
          arith,
          restore_source-reply q s p.tables e t h (pair.0 ∙ connection_key-dst (view q) _) pair.1,
        ),
        sum_packet-Rewritten _ _ (view-set_source (view q).dest s h.transport.long)
            (readdressed (view s) _ _ h.transport) h.header,
      )

  -- A packet that is the first of its connection, under a rule whose rewrite is an IPv6 address that
  -- is neither the loopback nor holds an IPv4 address, panics the handler.
  pub handle_incoming_packet-panics :
      (r : Resolver) (q : Packet) (p : ProxyHandler bart ip) (rule : SubnetRule) (to : Addr)
      (t : NatTables)
      → p.enabled ≡ true
      → IsTransport (view q)
      → match_rule bart p.subnet_lookup
          (addr_from4 (view q).source)
          (addr_from4 (view q).dest)
          (view q).dest_port
          (protocol_of (view q).protocol)
        ≡ some rule
      → translate r (connection_key (view q) (view q).dest_port) rule p.tables
        ≡ (Translation.translated to, t)
      → is_loopback to ≡ false
      → as4 to ≡ none
      → handle_incoming_packet bart ip r q p ≡ none
  unfolding handle_incoming_packet redirect rewrite_packet_destination
  handle_incoming_packet-panics r q p rule to t on ok matched translated away wide =
      ground (arith, destination_port-eq (view q) ok)
