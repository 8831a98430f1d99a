-- ===== src/Dnat/Tables/Reachable.antt =====
-- netstack2/proxy.go: the pairing of the two NAT tables over packets and closed connections.
use newt.Prelude.{
  string_eq, Eq, ◌≡◌, refl, none, some, arith, ◌⊎◌, inl, inr, Option-cases, Bool-cases, ◌==◌,
}
use newt.Prelude.GoMap.{GoMap, lookup, insert, delete, lookup-insert, lookup-delete}
use newt.Subnet.{Addr, SubnetRule}
use newt.Dnat.{ConnKey, ReverseConnKey, DestKey, NatState, conn_eq, reverse_eq, dest_eq}
use newt.Dnat.Tables.{
  NatTables, no_tables, reverse_key, Resolver, resolve_rewrite_address, translate,
  release_connection_state, add_entry, note_resource, dest_key,
}

-- Each tracked connection keeps its own original destination, and its reply finds the same entry.
abbrev pub Paired : NatTables → Type 0
Paired t =
    (f : ConnKey) (e : NatState)
    → lookup f t.nat_table ≡ some e
    → (e.original_dst ≡ f.dst)
      × (lookup (reverse_key f e.rewritten_to) t.reverse_nat_table ≡ some e)

-- No other connection waits for replies under the key of a new entry.
abbrev pub Unclaimed : Resolver → ConnKey → SubnetRule → NatTables → Type 0
Unclaimed r f rule t =
    (to : Addr)
    → lookup f t.nat_table ≡ none
    → resolve_rewrite_address r rule.rewrite_to ≡ some to
    → lookup (reverse_key f to) t.reverse_nat_table ≡ none

pub reverse_key-inj :
    (f g : ConnKey) (a b : Addr) → reverse_key f a ≡ reverse_key g b → f.dst ≡ g.dst → f ≡ g
reverse_key-inj f g a b h d = ground arith

-- A table and its index: each entry of the first is found in the second under its own key.
module _ {C R S : Type 0} ⦃c : Eq C⦄ ⦃d : Eq R⦄ (key : C → S → R) (P : C → S → Type 0) where
  abbrev Indexed : GoMap C S → GoMap R S → Type 0
  Indexed n m = (f : C) (e : S) → lookup f n ≡ some e → P f e × (lookup (key f e) m ≡ some e)

  insert-Indexed :
      (f : C) (e : S) (n : GoMap C S) (m : GoMap R S)
      → P f e
      → lookup (key f e) m ≡ none
      → Indexed n m
      → Indexed (insert f e n) (insert (key f e) e m)
  insert-Indexed f e n m own free h g e' at = ground (
    arith,
    lookup-insert f g e n,
    c.beq_iff f g,
    lookup-insert (key f e) (key g e') e m,
    d.beq_iff (key f e) (key g e'),
    h g e',
  )

  delete-Indexed :
      (f : C) (e : S) (n : GoMap C S) (m : GoMap R S)
      → ((g : C) → P f e → P g e → key f e ≡ key g e → f ≡ g)
      → lookup f n ≡ some e
      → Indexed n m
      → Indexed (delete f n) (delete (key f e) m)
  delete-Indexed f e n m inj own h g e' at = ground (
    arith,
    lookup-delete f g n,
    c.beq_iff f g,
    lookup-delete (key f e) (key g e') m,
    d.beq_iff (key f e) (key g e'),
    h g e',
    h f e,
    inj g,
  )

-- What the tables say of one connection.
abbrev Own : ConnKey → NatState → Type 0
Own f e = e.original_dst ≡ f.dst

abbrev reply_key : ConnKey → NatState → ReverseConnKey
reply_key f e = reverse_key f e.rewritten_to

reply_key-inj :
    (e : NatState) (f g : ConnKey) → Own f e → Own g e → reply_key f e ≡ reply_key g e → f ≡ g
reply_key-inj e f g p q h = ground arith

pub note_resource-nat_table :
    (k : DestKey) (rule : SubnetRule) (t : NatTables)
    → ((note_resource k rule t).nat_table ≡ t.nat_table)
      × ((note_resource k rule t).reverse_nat_table ≡ t.reverse_nat_table)
unfolding note_resource
note_resource-nat_table k rule t = ground arith

add_entry-Paired :
    (f : ConnKey) (to : Addr) (rule : SubnetRule) (t : NatTables)
    → lookup (reverse_key f to) t.reverse_nat_table ≡ none
    → Paired t
    → Paired (add_entry f to rule t)
unfolding add_entry
add_entry-Paired f to rule t free h =
    let e : NatState = record { original_dst = f.dst; rewritten_to = to } in
    let t' : NatTables = record t {
      nat_table = insert f e t.nat_table;
      reverse_nat_table = insert (reverse_key f to) e t.reverse_nat_table;
      dest_rewrite_table = insert (dest_key f) to t.dest_rewrite_table;
    } in
    let note = note_resource-nat_table (dest_key (record f { dst = to })) rule t' in
    rw (note.0, note.1)
      (insert-Indexed reply_key Own f e t.nat_table t.reverse_nat_table refl free h)

release-Paired : (f : ConnKey) (t : NatTables) → Paired t → Paired (release_connection_state f t)
unfolding release_connection_state
release-Paired f t h = elim (Option-cases (lookup f t.nat_table)) [
  | inl e ↦ rw (e, release_connection_state) h
  | inr (e, at) ↦
      rw (at, release_connection_state)
        (delete-Indexed reply_key Own f e t.nat_table t.reverse_nat_table (reply_key-inj e f) at h)
]

note_resource-Paired :
    (k : DestKey) (rule : SubnetRule) (t : NatTables) → Paired t → Paired (note_resource k rule t)
note_resource-Paired k rule t h =
    let note = note_resource-nat_table k rule t in rw (note.0, note.1) h

-- The tables after a packet: the noted resource, and perhaps a new entry.
pub translate-cases :
    (r : Resolver) (f : ConnKey) (rule : SubnetRule) (t : NatTables)
    → let t1 = note_resource (dest_key f) rule t in
      ((translate r f rule t).1 ≡ t1)
      ⊎ ((to : Addr) × (lookup f t.nat_table ≡ none)
          × (resolve_rewrite_address r rule.rewrite_to ≡ some to)
          × ((translate r f rule t).1 ≡ add_entry f to rule t1))
unfolding translate
translate-cases r f rule t =
    let note = note_resource-nat_table (dest_key f) rule t in
    elim (Bool-cases (rule.rewrite_to == "")) [
      | inl e ↦ inl (ground arith)
      | inr e ↦ elim (Option-cases (lookup f t.nat_table)) [
        | inr (x, at) ↦ inl (ground arith)
        | inl absent ↦ elim (Option-cases (resolve_rewrite_address r rule.rewrite_to)) [
          | inl fails ↦ inl (ground arith)
          | inr (to, resolved) ↦ inr (to, absent, resolved, ground arith)
        ]
      ]
    ]

translate-Paired :
    (r : Resolver) (f : ConnKey) (rule : SubnetRule) (t : NatTables)
    → Unclaimed r f rule t
    → Paired t
    → Paired (translate r f rule t).1
translate-Paired r f rule t free h =
    let k = note_resource-Paired (dest_key f) rule t h in
    elim (translate-cases r f rule t) [
      | inl e ↦ rw e k
      | inr (to, absent, resolved, e) ↦
          let note = note_resource-nat_table (dest_key f) rule t in
          rw e (add_entry-Paired f to rule _ (rw note.1 (free to absent resolved)) k)
    ]

-- Packets of connections and closings of connections, in any order.
pub data Step (r : Resolver) : NatTables → NatTables → Type 0 where
  packet :
      (f : ConnKey) (rule : SubnetRule) (t : NatTables)
      → Unclaimed r f rule t
      → Step r t (translate r f rule t).1
  closed : (f : ConnKey) (t : NatTables) → Step r t (release_connection_state f t)

pub data Reach (r : Resolver) (s : NatTables) : NatTables → Type 0 where
  start : Reach r s s
  next : {t u : NatTables} → Reach r s t → Step r t u → Reach r s u

Step-Paired : {r : Resolver} {t u : NatTables} → Step r t u → Paired t → Paired u
Step-Paired {r} (packet f rule t free) h = translate-Paired r f rule t free h
Step-Paired (closed f t) h = release-Paired f t h

pub Reach-Paired : {r : Resolver} {t : NatTables} → Reach r no_tables t → Paired t
Reach-Paired start = λ f e at. cc
Reach-Paired (next p s) = Step-Paired s (Reach-Paired p)
