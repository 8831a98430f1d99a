-- ===== src/Dnat/Tests.antt =====
-- Packets as records, and the theorems on translated connections at concrete ones.
use newt.Prelude.{
  ℕ, ◌≡◌, refl, true, false, some, none, List, [], ◌∷◌, String, pos, inl, nat_eq, arith, ap,
}
use newt.Prelude.GoMap.{lookup}
use newt.Subnet.{Addr, Prefix, SubnetRule}
use newt.Subnet.Listed.{list_bart}
use newt.Subnet.Table.{SubnetLookup, new_subnet_lookup, add_subnet}
use newt.Dnat.{ConnKey, conn_eq, reverse_eq, dest_eq, addr_from4}
use newt.Dnat.Frames.{Frame, frames}
use newt.Dnat.Tables.{
  NatTables, no_tables, Resolver, Translation, translate, resolve_rewrite_address, note_resource,
  add_entry, dest_key,
}
use newt.Dnat.Tables.Reachable.{Step, Reach}
use newt.Dnat.Tables.Stale.{Event, seen_at}
use newt.Dnat.Packets.{ProxyHandler, connection_key, read_outgoing_packet, source_port}
use newt.Dnat.Packets.Return.{IsTransport, Rewritten, read_outgoing_packet-reply}

abbrev net : ℕ → ℕ → Prefix
net value bits = record { wide = false; value = value; bits = bits }

-- From 10.0.0.0/8 to 192.168.0.0/16, translated.
abbrev rewriting : String → SubnetRule
rewriting to = record {
  source_prefix = net 167772160 8;
  dest_prefix = net 3232235520 16;
  disable_icmp = false;
  rewrite_to = to;
  port_ranges = [];
  resource_id = pos 4;
  protocol = "";
  http_targets = [];
  tls_cert = "";
  tls_key = "";
}

-- 172.16.0.9
abbrev inner : Addr
inner = record { wide = false; value = 2886729737 }

-- 2001:db8::1
abbrev wide_inner : Addr
wide_inner = record { wide = true; value = 42540766411282592856903984951653826561 }

abbrev always : Addr → Resolver
always a = record { parse_prefix = λ s. some a; parse_addr = λ s. none; lookup_ip = λ s. none }

-- from 10.0.0.5:4000 to 192.168.1.1:443, over TCP
abbrev request : Frame
request = record {
  seen = record {
    size = 60;
    version = 4;
    source = 167772165;
    dest = 3232235777;
    protocol = 6;
    header_len = 20;
    source_port = 4000;
    dest_port = 443;
    payload = [];
  };
  header_field = 0;
  transport_field = 0;
}

-- from 172.16.0.9:443 to 10.0.0.5:4000
abbrev reply : Frame
reply = record request {
  seen = record request.seen {
    source = inner.value;
    dest = 167772165;
    source_port = 443;
    dest_port = 4000;
  };
}

request-IsTransport : IsTransport request.seen
request-IsTransport = record {
  version = refl;
  long = omega arith;
  tcp_or_udp = inl refl;
  ports = refl;
}

abbrev flow : ConnKey
flow = connection_key request.seen 443

-- the tables after the request
abbrev tracked : Addr → NatTables
tracked to =
    add_entry flow to (rewriting "a") (note_resource (dest_key flow) (rewriting "a") no_tables)

translated_first :
    (to : Addr)
    → translate (always to) flow (rewriting "a") no_tables ≡ (Translation.translated to, tracked to)
unfolding translate resolve_rewrite_address
translated_first to = refl

abbrev rules : SubnetLookup list_bart
rules = add_subnet list_bart (rewriting "a") (new_subnet_lookup list_bart)

abbrev handler : NatTables → List Frame → ProxyHandler list_bart frames
handler t outbound = record {
  enabled = true;
  subnet_lookup = rules;
  tables = t;
  icmp_replies = [];
  blocked = false;
  injected = [];
  outbound = outbound;
}

reached : Reach (always inner) no_tables (tracked inner)
reached =
    rw (← ap (λ (x : Translation × NatTables). x.1) (translated_first inner))
      (Reach.next Reach.start (Step.packet flow (rewriting "a") no_tables (λ to a b. refl)))

tracked_flow :
    lookup flow (tracked inner).nat_table
    ≡ some (record { original_dst = addr_from4 3232235777; rewritten_to = inner })
unfolding connection_key source_port add_entry note_resource
tracked_flow = refl

read_outgoing_packet-reply_example :
    (s' : Frame) × (read_outgoing_packet list_bart frames (handler (tracked inner) (reply ∷ []))
      ≡ some (some s', handler (tracked inner) []))
    × Rewritten list_bart frames (record reply.seen { source = 3232235777 }) s'
read_outgoing_packet-reply_example =
    read_outgoing_packet-reply list_bart frames (always inner) request reply
      (handler (tracked inner) (reply ∷ []))
      (record { original_dst = addr_from4 3232235777; rewritten_to = inner }) [] refl refl refl
      reached tracked_flow request-IsTransport
      (record {
        transport = record {
          version = refl;
          long = omega arith;
          tcp_or_udp = inl refl;
          ports = refl;
        };
        header = omega arith;
        same_protocol = refl;
        source = refl;
        dest = refl;
        source_port = refl;
        dest_port = refl;
      })

-- a packet of another source port, and its end
abbrev others : List Event
others =
    Event.packet (always inner) (record flow { src_port = 4001 }) (rewriting "a")
    ∷ Event.ended 6 (seen_at inner (record flow { src_port = 4001 }))
    ∷ []
