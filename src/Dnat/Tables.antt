-- ===== src/Dnat/Tables.antt =====
-- netstack2/proxy.go: the tables of `ProxyHandler` that `natMu` guards, and the translation of a
-- connection in `HandleIncomingPacket`.
pub mod Reachable
pub mod Stale
use newt.Prelude.{
  ℕ, String, Bool, true, false, Option, none, some, List, [], ◌∷◌, ℤ, pos, ◌==◌, int_eq, string_eq,
  if◌then◌else◌, from_option,
}
use newt.Prelude.GoMap.{GoMap, lookup, insert, delete}
use newt.Subnet.{Addr, SubnetRule}
use newt.Dnat.{
  ConnKey, ReverseConnKey, DestKey, NatState, conn_eq, reverse_eq, dest_eq, as4, addr_from4,
}

pub record NatTables : Type 0 where
  pub nat_table : GoMap ConnKey NatState
  pub reverse_nat_table : GoMap ReverseConnKey NatState
  pub dest_rewrite_table : GoMap DestKey Addr
  pub resource_table : GoMap DestKey ℤ

abbrev pub no_tables : NatTables
no_tables = record {
  nat_table = [];
  reverse_nat_table = [];
  dest_rewrite_table = [];
  resource_table = [];
}

abbrev pub dest_key : ConnKey → DestKey
dest_key f = record { src = f.src; dst = f.dst; dst_port = f.dst_port; proto = f.proto }

abbrev pub reverse_key : ConnKey → Addr → ReverseConnKey
reverse_key f to = record {
  rewritten_to = to;
  original_src = f.src;
  original_src_port = f.src_port;
  original_dst_port = f.dst_port;
  proto = f.proto;
}

-- `ParsePrefix`, `ParseAddr` and the DNS lookup of IPv4 addresses
pub record Resolver : Type 0 where
  pub parse_prefix : String → Option Addr
  pub parse_addr : String → Option Addr
  pub lookup_ip : String → Option (List Addr)

-- the first address, if `To4` gives one
unfoldable first_of : List Addr → Option Addr
unfolding as4
first_of [] = none
first_of (a ∷ l) = elim (as4 a) [ none ↦ none | some n ↦ some (addr_from4 n) ]

unfoldable pub resolve_rewrite_address : Resolver → String → Option Addr
unfolding first_of
resolve_rewrite_address r s = elim (r.parse_prefix s) [
  | some a ↦ some a
  | none ↦ elim (r.parse_addr s) [
    | some a ↦ some a
    | none ↦ elim (r.lookup_ip s) [ none ↦ none | some l ↦ first_of l ]
  ]
]

-- the resource id of a connection, for the access log
unfoldable pub note_resource : DestKey → SubnetRule → NatTables → NatTables
note_resource k rule t =
    if rule.resource_id == pos 0
    then t
    else record t { resource_table = insert k rule.resource_id t.resource_table }

-- the entries of a new connection
unfoldable pub add_entry : ConnKey → Addr → SubnetRule → NatTables → NatTables
unfolding note_resource
add_entry f to rule t =
    let e : NatState = record { original_dst = f.dst; rewritten_to = to } in
    let t' = record t {
      nat_table = insert f e t.nat_table;
      reverse_nat_table = insert (reverse_key f to) e t.reverse_nat_table;
      dest_rewrite_table = insert (dest_key f) to t.dest_rewrite_table;
    } in
    note_resource (dest_key (record f { dst = to })) rule t'

-- what happens to the packet's destination
pub data Translation : Type 0 where
  plain : Translation
  unresolved : Translation
  translated : Addr → Translation

-- the part of `HandleIncomingPacket` from the matched rule to the new destination
unfoldable pub translate : Resolver → ConnKey → SubnetRule → NatTables → Translation × NatTables
unfolding resolve_rewrite_address note_resource add_entry
translate r f rule t =
    let t1 = note_resource (dest_key f) rule t in
    if rule.rewrite_to == "" then (Translation.plain, t1) else elim (lookup f t.nat_table) [
      | some e ↦ (Translation.translated e.rewritten_to, t1)
      | none ↦ elim (resolve_rewrite_address r rule.rewrite_to) [
        | none ↦ (Translation.unresolved, t1)
        | some to ↦ (Translation.translated to, add_entry f to rule t1)
      ]
    ]

unfoldable pub release_connection_state : ConnKey → NatTables → NatTables
release_connection_state f t = elim (lookup f t.nat_table) [
  | none ↦ t
  | some e ↦ record t {
    nat_table = delete f t.nat_table;
    reverse_nat_table = delete (reverse_key f e.rewritten_to) t.reverse_nat_table;
  }
]

unfoldable pub lookup_resource_id : DestKey → NatTables → ℤ
lookup_resource_id k t = from_option (pos 0) (lookup k t.resource_table)

unfoldable pub lookup_destination_rewrite : DestKey → NatTables → Option Addr
lookup_destination_rewrite k t = lookup k t.dest_rewrite_table
