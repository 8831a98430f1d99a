-- ===== src/Proxy/Counters/Orphans.antt =====
-- proxy/manager.go: an entry that belongs to no tunnel, over calls of the manager.
use newt.Prelude.{
  ℕ, ◌<◌, ◌≡◌, ◌≢◌, refl, sym, ◌∙◌, String, Bool, ◌&&◌, some, List, [], ◌∷◌, arith, ltb, ◌==◌,
  nat_eq, nat_beq_iff, string_eq, if◌then◌else◌, inl, inr, Bool-cases, Option-cases, All,
}
use newt.Prelude.GoMap.{GoMap, lookup, insert, delete}
use newt.Proxy.Counters.{
  Kind, Counters, bump, set_async_bytes, set_tunnel_id, flush_entry, clear_tunnel_id, flush_each,
  flush_tick, count_written,
}

pub data Event : Type 0 where
  set_async : Bool → Event
  set_tunnel : String → Event
  clear_tunnel : Event
  ticked : Event
  written : ℕ → Kind → ℕ → Event

unfoldable pub run : Event → Counters → Counters
unfolding set_async_bytes set_tunnel_id clear_tunnel_id flush_tick count_written
run (Event.set_async b) c = set_async_bytes b c
run (Event.set_tunnel id) c = set_tunnel_id id c
run Event.clear_tunnel c = clear_tunnel_id c
run Event.ticked c = flush_tick c
run (Event.written p k n) c = count_written p k n c

unfoldable pub run_all : List Event → Counters → Counters
unfolding run
run_all [] c = c
run_all (e ∷ es) c = run_all es (run e c)

-- The entry belongs to no tunnel, and no new tunnel gets it.
abbrev pub IsOrphan : ℕ → Counters → Type 0
IsOrphan p c = (p < c.next) × All (λ (e : String × ℕ). e.1 ≢ p) c.tunnels

flush_entry-other : (p q : ℕ) (c : Counters) → p ≢ q → (flush_entry q c).entries p ≡ c.entries p
unfolding flush_entry
flush_entry-other p q c h = ground (arith, nat_beq_iff p q)

flush_each-other :
    (p : ℕ) (m : GoMap String ℕ) (c : Counters)
    → All (λ (e : String × ℕ). e.1 ≢ p) m
    → ((flush_each m c).entries p ≡ c.entries p)
      × ((flush_each m c).next ≡ c.next)
      × ((flush_each m c).tunnels ≡ c.tunnels)
unfolding flush_each
flush_each-other p [] c h = (refl, refl, refl)
flush_each-other p ((id, q) ∷ m) c h =
    let r = flush_each-other p m (flush_entry q c) h.1 in
    (r.0 ∙ flush_entry-other p q c (λ x. h.0 (sym x)), r.1, r.2)

pub All-delete :
    (p : ℕ) (id : String) (m : GoMap String ℕ)
    → All (λ (e : String × ℕ). e.1 ≢ p) m
    → All (λ (e : String × ℕ). e.1 ≢ p) (delete id m)
All-delete p id [] h = tt
All-delete p id ((j, q) ∷ m) h = elim (Bool-cases (j == id)) [
  | inl e ↦ rw (e) (All-delete p id m h.1)
  | inr e ↦ rw (e) (h.0, All-delete p id m h.1)
]

pub All-insert :
    (p : ℕ) (id : String) (q : ℕ) (m : GoMap String ℕ)
    → q ≢ p
    → All (λ (e : String × ℕ). e.1 ≢ p) m
    → All (λ (e : String × ℕ). e.1 ≢ p) (insert id q m)
All-insert p id q [] n h = (n, tt)
All-insert p id q ((j, r) ∷ m) n h = elim (Bool-cases (j == id)) [
  | inl e ↦ rw (e) (n, h.1)
  | inr e ↦ rw (e) (h.0, All-insert p id q m n h.1)
]

pub All-lookup :
    (p : ℕ) (id : String) (q : ℕ) (m : GoMap String ℕ)
    → All (λ (e : String × ℕ). e.1 ≢ p) m
    → lookup id m ≡ some q
    → q ≢ p
All-lookup p id q [] h found = absurd (cc found)
All-lookup p id q ((j, r) ∷ m) h found = elim (Bool-cases (j == id)) [
  | inl e ↦ λ x. h.0 (ground (arith, e, found, x))
  | inr e ↦ All-lookup p id q m h.1 (ground (arith, e, found))
]

-- what a call leaves of the entry
abbrev pub Leaves : ℕ → Counters → Counters → Type 0
Leaves p c d = IsOrphan p d × (d.entries p ≡ c.entries p) × (d.async_bytes ≡ c.async_bytes)

set_tunnel_id-Leaves :
    (p : ℕ) (id : String) (c : Counters) → IsOrphan p c → Leaves p c (set_tunnel_id id c)
unfolding set_tunnel_id
set_tunnel_id-Leaves p id c o = elim (Option-cases (lookup id c.tunnels)) [
  | inl e ↦
      rw (e, set_tunnel_id)
        (
          (omega (arith, o.0), All-insert p id c.next c.tunnels (λ x. omega (arith, x, o.0)) o.1),
          ground (arith, nat_beq_iff p c.next, o.0),
          refl,
        )
  | inr (q, e) ↦ rw (e, set_tunnel_id) (o, refl, refl)
]

clear_tunnel_id-Leaves : (p : ℕ) (c : Counters) → IsOrphan p c → Leaves p c (clear_tunnel_id c)
unfolding clear_tunnel_id flush_entry
clear_tunnel_id-Leaves p c o = elim (Bool-cases (c.current_tunnel_id == "")) [
  | inl e ↦ rw (e, clear_tunnel_id) (o, refl, refl)
  | inr e ↦ elim (Option-cases (lookup c.current_tunnel_id c.tunnels)) [
    | inl x ↦ rw (e, x, clear_tunnel_id) (o, refl, refl)
    | inr (q, x) ↦
        let ne = All-lookup p c.current_tunnel_id q c.tunnels o.1 x in
        rw (e, x, clear_tunnel_id)
          (
            (o.0, All-delete p c.current_tunnel_id c.tunnels o.1),
            flush_entry-other p q c (λ y. ne (sym y)),
            refl,
          )
  ]
]

flush_each-async :
    (m : GoMap String ℕ) (c : Counters) → (flush_each m c).async_bytes ≡ c.async_bytes
unfolding flush_each flush_entry
flush_each-async [] c = refl
flush_each-async ((id, q) ∷ m) c = flush_each-async m (flush_entry q c)

flush_tick-Leaves : (p : ℕ) (c : Counters) → IsOrphan p c → Leaves p c (flush_tick c)
unfolding flush_tick
flush_tick-Leaves p c o =
    let r = flush_each-other p c.tunnels c o.1 in
    ((rw (r.1) o.0, rw (r.2) o.1), r.0, flush_each-async c.tunnels c)

-- what the writers count into the entry from there on
abbrev pub collected : ℕ → List Event → Bool → (Kind → ℕ) → Kind → ℕ
collected p [] b f = f
collected p (Event.set_async b' ∷ es) b f = collected p es b' f
collected p (Event.written q k n ∷ es) b f =
    collected p es b (if (q == p) && (b && ltb 0 n) then bump k n f else f)
collected p (Event.set_tunnel id ∷ es) b f = collected p es b f
collected p (Event.clear_tunnel ∷ es) b f = collected p es b f
collected p (Event.ticked ∷ es) b f = collected p es b f

-- counting keeps the tunnels
pub count_written-tunnels :
    (q : ℕ) (k : Kind) (n : ℕ) (c : Counters)
    → ((count_written q k n c).next ≡ c.next)
      × ((count_written q k n c).tunnels ≡ c.tunnels)
      × ((count_written q k n c).async_bytes ≡ c.async_bytes)
unfolding count_written
count_written-tunnels q k n c = ground arith

count_written-entries :
    (p q : ℕ) (k : Kind) (n : ℕ) (c : Counters)
    → (count_written q k n c).entries p
      ≡ (if (q == p) && (c.async_bytes && ltb 0 n) then bump k n (c.entries p) else c.entries p)
unfolding count_written
count_written-entries p q k n c = ground (arith, nat_beq_iff q p, nat_beq_iff p q)

count_written-IsOrphan :
    (p q : ℕ) (k : Kind) (n : ℕ) (c : Counters) → IsOrphan p c → IsOrphan p (count_written q k n c)
count_written-IsOrphan p q k n c o =
    let t = count_written-tunnels q k n c in (rw (t.0) o.0, rw (t.1) o.1)

-- An entry that belongs to no tunnel holds what it held together with what is counted into it.
pub run_all-collected :
    (p : ℕ) (es : List Event) (c : Counters)
    → IsOrphan p c
    → (run_all es c).entries p ≡ collected p es c.async_bytes (c.entries p)
unfolding run_all run set_async_bytes
run_all-collected p [] c o = refl
run_all-collected p (Event.set_async b ∷ es) c o = run_all-collected p es (set_async_bytes b c) o
run_all-collected p (Event.set_tunnel id ∷ es) c o =
    let l = set_tunnel_id-Leaves p id c o in
    run_all-collected p es (set_tunnel_id id c) l.0 ∙ cc (l.1, l.2)
run_all-collected p (Event.clear_tunnel ∷ es) c o =
    let l = clear_tunnel_id-Leaves p c o in
    run_all-collected p es (clear_tunnel_id c) l.0 ∙ cc (l.1, l.2)
run_all-collected p (Event.ticked ∷ es) c o =
    let l = flush_tick-Leaves p c o in run_all-collected p es (flush_tick c) l.0 ∙ cc (l.1, l.2)
run_all-collected p (Event.written q k n ∷ es) c o =
    run_all-collected p es (count_written q k n c) (count_written-IsOrphan p q k n c o)
    ∙ cc (count_written-entries p q k n c, (count_written-tunnels q k n c).2)
