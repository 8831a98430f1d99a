-- ===== src/Proxy/Counters.antt =====
-- proxy/manager.go: the byte counters of the tunnels. An entry is an object of a store, as the
-- writers of a connection keep a pointer to it. Counters are 64-bit patterns, and `reported` is what
-- the telemetry was given so far. Attributes are not part of the state.
pub mod Orphans
pub mod Stranded
use newt.Prelude.{
  ℕ, zero, suc, ◌+◌, String, Bool, true, false, ◌&&◌, Option, none, some, List, [], ◌∷◌, ltb, add64,
  ◌==◌, nat_eq, string_eq, if◌then◌else◌,
}
use newt.Prelude.GoMap.{GoMap, lookup, insert, delete}

-- direction and protocol
pub data Kind : Type 0 where
  in_tcp : Kind
  out_tcp : Kind
  in_udp : Kind
  out_udp : Kind

abbrev pub same_kind : Kind → Kind → Bool
same_kind Kind.in_tcp Kind.in_tcp = true
same_kind Kind.out_tcp Kind.out_tcp = true
same_kind Kind.in_udp Kind.in_udp = true
same_kind Kind.out_udp Kind.out_udp = true
same_kind _ _ = false

pub record Counters : Type 0 where
  pub entries : ℕ → Kind → ℕ
  pub next : ℕ
  pub tunnels : GoMap String ℕ
  pub current_tunnel_id : String
  pub async_bytes : Bool
  pub reported : Kind → ℕ

abbrev pub bump : Kind → ℕ → (Kind → ℕ) → Kind → ℕ
bump k n c j = if same_kind j k then add64 (c j) n else c j

abbrev pub set_entry : ℕ → (Kind → ℕ) → (ℕ → Kind → ℕ) → ℕ → Kind → ℕ
set_entry p c f q = if q == p then c else f q

unfoldable pub set_async_bytes : Bool → Counters → Counters
set_async_bytes b c = record c { async_bytes = b }

unfoldable pub set_tunnel_id : String → Counters → Counters
set_tunnel_id id c = elim (lookup id c.tunnels) [
  | some p ↦ record c { current_tunnel_id = id }
  | none ↦ record c {
    current_tunnel_id = id;
    entries = set_entry c.next (λ k. 0) c.entries;
    next = c.next + 1;
    tunnels = insert id c.next c.tunnels;
  }
]

-- the counters of an entry are swapped with 0 and reported
unfoldable pub flush_entry : ℕ → Counters → Counters
flush_entry p c = record c {
  entries = set_entry p (λ k. 0) c.entries;
  reported =
      λ k. if ltb 0 (c.entries p k) then add64 (c.reported k) (c.entries p k) else c.reported k;
}

unfoldable pub clear_tunnel_id : Counters → Counters
unfolding flush_entry
clear_tunnel_id c =
    if c.current_tunnel_id == "" then c else elim (lookup c.current_tunnel_id c.tunnels) [
      | none ↦ record c { current_tunnel_id = "" }
      | some p ↦
          let c' = flush_entry p c in
          record c' { tunnels = delete c.current_tunnel_id c.tunnels; current_tunnel_id = "" }
    ]

-- one tick of `flushLoop`
unfoldable pub flush_each : GoMap String ℕ → Counters → Counters
unfolding flush_entry
flush_each [] c = c
flush_each ((id, p) ∷ rest) c = flush_each rest (flush_entry p c)

unfoldable pub flush_tick : Counters → Counters
unfolding flush_each
flush_tick c = flush_each c.tunnels c

-- `countingWriter.Write` after it wrote `n` bytes, with its entry
unfoldable pub count_written : ℕ → Kind → ℕ → Counters → Counters
count_written p k n c =
    if ltb 0 n
    then (if c.async_bytes
        then record c { entries = set_entry p (bump k n (c.entries p)) c.entries }
        else record c { reported = bump k n c.reported })
    else c
