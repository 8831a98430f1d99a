-- ===== src/Proxy/Counters/Stranded.antt =====
-- proxy/manager.go: the entry that the writers of open connections keep after its tunnel is cleared.
use newt.Prelude.{
  ℕ, ◌+◌, ◌<◌, subst, false, ◌≡◌, ◌≢◌, refl, sym, ◌∙◌, String, some, List, [], ◌∷◌, arith, ◌==◌,
  nat_eq, nat_beq_iff, string_eq, inl, inr, Bool-cases, Option-cases, All,
}
use newt.Prelude.GoMap.{GoMap, lookup, insert, delete}
use newt.Proxy.Counters.{
  Counters, set_async_bytes, set_tunnel_id, flush_entry, clear_tunnel_id, flush_each, flush_tick,
}
use newt.Proxy.Counters.Orphans.{
  Event, run, run_all, IsOrphan, All-delete, All-insert, All-lookup, count_written-tunnels,
  run_all-collected, collected,
}

-- the counters of a new manager
abbrev pub no_counters : Counters
no_counters = record {
  entries = λ p k. 0;
  next = 0;
  tunnels = [];
  current_tunnel_id = "";
  async_bytes = false;
  reported = λ k. 0;
}

-- No two tunnels share an entry.
abbrev AreApart : GoMap String ℕ → Type 0
AreApart [] = Unit
AreApart ((id, p) ∷ m) = All (λ (e : String × ℕ). e.1 ≢ p) m × AreApart m

abbrev AreBelow : ℕ → GoMap String ℕ → Type 0
AreBelow n m = All (λ (e : String × ℕ). e.1 < n) m

-- Each tunnel has an entry of its own, and the next entry is new.
abbrev IsSound : Counters → Type 0
IsSound c = AreBelow c.next c.tunnels × AreApart c.tunnels

AreBelow-suc : (n : ℕ) (m : GoMap String ℕ) → AreBelow n m → AreBelow (n + 1) m
AreBelow-suc n [] h = tt
AreBelow-suc n ((id, p) ∷ m) h = (omega (arith, h.0), AreBelow-suc n m h.1)

AreBelow-ne : (n : ℕ) (m : GoMap String ℕ) → AreBelow n m → All (λ (e : String × ℕ). e.1 ≢ n) m
AreBelow-ne n [] h = tt
AreBelow-ne n ((id, p) ∷ m) h = (λ x. omega (arith, x, h.0), AreBelow-ne n m h.1)

AreBelow-insert :
    (n : ℕ) (id : String) (m : GoMap String ℕ) → AreBelow n m → AreBelow (n + 1) (insert id n m)
AreBelow-insert n id [] h = (omega arith, tt)
AreBelow-insert n id ((j, q) ∷ m) h = elim (Bool-cases (j == id)) [
  | inl e ↦ rw (e) (omega arith, AreBelow-suc n m h.1)
  | inr e ↦ rw (e) (omega (arith, h.0), AreBelow-insert n id m h.1)
]

AreApart-insert :
    (n : ℕ) (id : String) (m : GoMap String ℕ)
    → AreBelow n m
    → AreApart m
    → AreApart (insert id n m)
AreApart-insert n id [] b h = (tt, tt)
AreApart-insert n id ((j, q) ∷ m) b h = elim (Bool-cases (j == id)) [
  | inl e ↦ rw (e) (AreBelow-ne n m b.1, h.1)
  | inr e ↦
      rw (e) (All-insert q id n m (λ x. omega (arith, x, b.0)) h.0, AreApart-insert n id m b.1 h.1)
]

AreBelow-delete :
    (n : ℕ) (id : String) (m : GoMap String ℕ) → AreBelow n m → AreBelow n (delete id m)
AreBelow-delete n id [] h = tt
AreBelow-delete n id ((j, q) ∷ m) h = elim (Bool-cases (j == id)) [
  | inl e ↦ rw (e) (AreBelow-delete n id m h.1)
  | inr e ↦ rw (e) (h.0, AreBelow-delete n id m h.1)
]

AreApart-delete : (id : String) (m : GoMap String ℕ) → AreApart m → AreApart (delete id m)
AreApart-delete id [] h = tt
AreApart-delete id ((j, q) ∷ m) h = elim (Bool-cases (j == id)) [
  | inl e ↦ rw (e) (AreApart-delete id m h.1)
  | inr e ↦ rw (e) (All-delete q id m h.0, AreApart-delete id m h.1)
]

-- The entry of a tunnel is no other's.
lookup-delete-apart :
    (id : String) (p : ℕ) (m : GoMap String ℕ)
    → AreApart m
    → lookup id m ≡ some p
    → All (λ (e : String × ℕ). e.1 ≢ p) (delete id m)
lookup-delete-apart id p [] h found = tt
lookup-delete-apart id p ((j, q) ∷ m) h found = elim (Bool-cases (j == id)) [
  | inl e ↦
      let same : q ≡ p = ground (arith, e, found) in
      rw (e)
        (subst (λ x. All (λ (f : String × ℕ). f.1 ≢ x) (delete id m)) same (All-delete q id m h.0))
  | inr e ↦
      let there : lookup id m ≡ some p = ground (arith, e, found) in
      rw (e) ((λ x. All-lookup q id p m h.0 there (sym x)), lookup-delete-apart id p m h.1 there)
]

lookup-below :
    (n p : ℕ) (id : String) (m : GoMap String ℕ) → AreBelow n m → lookup id m ≡ some p → p < n
lookup-below n p id [] h found = absurd (cc found)
lookup-below n p id ((j, q) ∷ m) h found = elim (Bool-cases (j == id)) [
  | inl e ↦ ground (arith, e, found, h.0)
  | inr e ↦ lookup-below n p id m h.1 (ground (arith, e, found))
]

flush_each-tunnels :
    (m : GoMap String ℕ) (c : Counters)
    → ((flush_each m c).next ≡ c.next) × ((flush_each m c).tunnels ≡ c.tunnels)
unfolding flush_each flush_entry
flush_each-tunnels [] c = (refl, refl)
flush_each-tunnels ((id, q) ∷ m) c = flush_each-tunnels m (flush_entry q c)

set_tunnel_id-IsSound : (id : String) (c : Counters) → IsSound c → IsSound (set_tunnel_id id c)
unfolding set_tunnel_id
set_tunnel_id-IsSound id c h = elim (Option-cases (lookup id c.tunnels)) [
  | inl e ↦
      rw (e, set_tunnel_id)
        (AreBelow-insert c.next id c.tunnels h.0, AreApart-insert c.next id c.tunnels h.0 h.1)
  | inr (q, e) ↦ rw (e, set_tunnel_id) h
]

clear_tunnel_id-IsSound : (c : Counters) → IsSound c → IsSound (clear_tunnel_id c)
unfolding clear_tunnel_id flush_entry
clear_tunnel_id-IsSound c h = elim (Bool-cases (c.current_tunnel_id == "")) [
  | inl e ↦ rw (e, clear_tunnel_id) h
  | inr e ↦ elim (Option-cases (lookup c.current_tunnel_id c.tunnels)) [
    | inl x ↦ rw (e, x, clear_tunnel_id) h
    | inr (q, x) ↦
        rw (e, x, clear_tunnel_id)
          (
            AreBelow-delete c.next c.current_tunnel_id c.tunnels h.0,
            AreApart-delete c.current_tunnel_id c.tunnels h.1,
          )
  ]
]

run-IsSound : (e : Event) (c : Counters) → IsSound c → IsSound (run e c)
unfolding run set_async_bytes flush_tick
run-IsSound (Event.set_async b) c h = h
run-IsSound (Event.set_tunnel id) c h = set_tunnel_id-IsSound id c h
run-IsSound Event.clear_tunnel c h = clear_tunnel_id-IsSound c h
run-IsSound Event.ticked c h = let t = flush_each-tunnels c.tunnels c in rw (t.0, t.1) h
run-IsSound (Event.written p k n) c h = let t = count_written-tunnels p k n c in rw (t.0, t.1) h

run_all-IsSound : (es : List Event) (c : Counters) → IsSound c → IsSound (run_all es c)
unfolding run_all
run_all-IsSound [] c h = h
run_all-IsSound (e ∷ es) c h = run_all-IsSound es (run e c) (run-IsSound e c h)

clear_tunnel_id-eq :
    (p : ℕ) (c : Counters)
    → (c.current_tunnel_id == "") ≡ false
    → lookup c.current_tunnel_id c.tunnels ≡ some p
    → clear_tunnel_id c ≡ record (flush_entry p c) {
      tunnels = delete c.current_tunnel_id c.tunnels;
      current_tunnel_id = "";
    }
unfolding clear_tunnel_id
clear_tunnel_id-eq p c named at = rw (named, at, clear_tunnel_id) refl

-- After any calls on a new manager, a tunnel is set and has an entry, and is then cleared. The entry
-- starts from 0 and is never reset again: whatever calls follow, it holds all bytes that the writers
-- of its open connections count into it asynchronously from there on.
pub run_all-cleared :
    (before after : List Event) (p : ℕ)
    → ((run_all before no_counters).current_tunnel_id == "") ≡ false
    → lookup (run_all before no_counters).current_tunnel_id (run_all before no_counters).tunnels
      ≡ some p
    → (run_all after (clear_tunnel_id (run_all before no_counters))).entries p
      ≡ collected p after (run_all before no_counters).async_bytes (λ k. 0)
unfolding flush_entry
run_all-cleared before after p named at =
    let c = run_all before no_counters in
    let sound = run_all-IsSound before no_counters (tt, tt) in
    let orphan : IsOrphan p (clear_tunnel_id c) = rw (clear_tunnel_id-eq p c named at) (
      lookup-below c.next p c.current_tunnel_id c.tunnels sound.0 at,
      lookup-delete-apart c.current_tunnel_id p c.tunnels sound.1 at,
    ) in
    let empty : (clear_tunnel_id c).entries p ≡ (λ k. 0) =
      rw (clear_tunnel_id-eq p c named at) (ground (arith, nat_beq_iff p p)) in
    let async : (clear_tunnel_id c).async_bytes ≡ c.async_bytes =
      rw (clear_tunnel_id-eq p c named at) refl in
    run_all-collected p after (clear_tunnel_id c) orphan ∙ cc (empty, async)
