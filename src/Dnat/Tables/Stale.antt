-- ===== src/Dnat/Tables/Stale.antt =====
-- netstack2/proxy.go: what stays in the NAT tables when a connection is closed under the address
-- its handler sees (netstack2/handlers.go), and when two connections share a reply key.
use newt.Prelude.{
  ℕ, List, [], ◌∷◌, sym, ap, ◌∙◌, beq_refl, beq_of_ne, str_beq_iff, ◌≡◌, ◌≢◌, false, none, some,
  arith, ◌==◌, string_eq,
}
use newt.Prelude.GoMap.{lookup, insert, lookup-insert}
use newt.Subnet.{Addr, SubnetRule}
use newt.Dnat.{ConnKey, NatState, conn_eq, reverse_eq, dest_eq}
use newt.Dnat.Tables.{
  NatTables, reverse_key, dest_key, Resolver, resolve_rewrite_address, Translation, translate,
  add_entry, note_resource,
}
use newt.Dnat.Tables.Reachable.{note_resource-nat_table}
use newt.Dnat.Handlers.{TransportEndpointId, handler_key, end_connection}

lookup-add_entry :
    (f g : ConnKey) (to : Addr) (rule : SubnetRule) (t : NatTables)
    → lookup g (add_entry f to rule t).nat_table
      ≡ lookup g (insert f (record { original_dst = f.dst; rewritten_to = to }) t.nat_table)
unfolding add_entry note_resource
lookup-add_entry f g to rule t = ground arith

-- A new connection's packet adds an entry.
translate-new :
    (r : Resolver) (f : ConnKey) (rule : SubnetRule) (t : NatTables) (to : Addr)
    → (rule.rewrite_to == "") ≡ false
    → lookup f t.nat_table ≡ none
    → resolve_rewrite_address r rule.rewrite_to ≡ some to
    → translate r f rule t
      ≡ (Translation.translated to, add_entry f to rule (note_resource (dest_key f) rule t))
unfolding translate
translate-new r f rule t to h absent resolved =
    let note = note_resource-nat_table (dest_key f) rule t in ground arith

-- What happens to the tables: packets, under any rule and answers of the resolver, and handlers of
-- connections that end.
pub data Event : Type 0 where
  packet : Resolver → ConnKey → SubnetRule → Event
  ended : ℕ → TransportEndpointId → Event

unfoldable pub run_events : List Event → NatTables → NatTables
run_events [] t = t
run_events (Event.packet r f rule ∷ es) t = run_events es (translate r f rule t).1
run_events (Event.ended proto id ∷ es) t = run_events es (end_connection proto id t)

-- The identifier that the stack has for the connection when its packets go to the address.
unfoldable pub seen_at : Addr → ConnKey → TransportEndpointId
seen_at to f = record {
  local_address = to;
  local_port = f.dst_port;
  remote_address = f.src;
  remote_port = f.src_port;
}

-- No connection ends that the stack sees under the connection's own key.
abbrev pub NoneEndsAt : ConnKey → List Event → Type 0
NoneEndsAt f [] = Unit
NoneEndsAt f (Event.packet r g rule ∷ es) = NoneEndsAt f es
NoneEndsAt f (Event.ended proto id ∷ es) = (handler_key proto id ≢ f) × NoneEndsAt f es

lookup-reverse_add_entry :
    (f : ConnKey) (to : Addr) (rule : SubnetRule) (t : NatTables)
    → lookup (reverse_key f to) (add_entry f to rule t).reverse_nat_table
      ≡ some (record { original_dst = f.dst; rewritten_to = to })
unfolding add_entry note_resource
lookup-reverse_add_entry f to rule t =
    let e : NatState = record { original_dst = f.dst; rewritten_to = to } in
    ground (
      arith,
      lookup-insert (reverse_key f to) (reverse_key f to) e t.reverse_nat_table,
      beq_refl (reverse_key f to),
    )

-- Two new connections that differ in their destination alone are translated to one address. Then
-- the replies to the first are found under the entry of the second: they will carry its destination.
pub translate-collides :
    (r : Resolver) (f : ConnKey) (rule : SubnetRule) (dst' : Addr) (rule' : SubnetRule)
    (t : NatTables)
    → (to : Addr) → dst' ≢ f.dst
    → (rule.rewrite_to == "") ≡ false
    → (rule'.rewrite_to == "") ≡ false
    → lookup f t.nat_table ≡ none
    → lookup (record f { dst = dst' }) t.nat_table ≡ none
    → resolve_rewrite_address r rule.rewrite_to ≡ some to
    → resolve_rewrite_address r rule'.rewrite_to ≡ some to
    → lookup
        (reverse_key f to)
        (translate r (record f { dst = dst' }) rule' (translate r f rule t).1).1.reverse_nat_table
      ≡ some (record { original_dst = dst'; rewritten_to = to })
translate-collides r f rule dst' rule' t to moved set set' absent absent' resolved resolved' =
    let g : ConnKey = record f { dst = dst' } in
    let t1 = note_resource (dest_key f) rule t in
    let t2 = add_entry f to rule t1 in
    let note = note_resource-nat_table (dest_key f) rule t in
    let other : (f == g) ≡ false =
      beq_of_ne f g (λ same. moved (sym (ap (λ (k : ConnKey). k.dst) same))) in
    let absent'' : lookup g t2.nat_table ≡ none =
      lookup-add_entry f g to rule t1 ∙ rw (lookup-insert, other, note.0) absent' in
    rw
      (
        translate-new r f rule t to set absent resolved,
        translate-new r g rule' t2 to set' absent'' resolved',
      )
      (lookup-reverse_add_entry g to rule' (note_resource (dest_key g) rule' t2))

-- A packet under a rule that translates nothing leaves the rewrites of the handlers as they are,
-- also one of its own destination that an earlier rule made.
pub translate-keeps_rewrites :
    (r : Resolver) (f : ConnKey) (rule : SubnetRule) (t : NatTables)
    → rule.rewrite_to ≡ ""
    → (translate r f rule t).1.dest_rewrite_table ≡ t.dest_rewrite_table
unfolding translate note_resource
translate-keeps_rewrites r f rule t h = ground (arith, str_beq_iff rule.rewrite_to "")
