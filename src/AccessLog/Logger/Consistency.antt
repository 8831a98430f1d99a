-- ===== src/AccessLog/Logger/Consistency.antt =====
-- netstack2/access_log.go: the consistency of the two maps of sessions with the store, and that the
-- operations on single sessions keep it.
use newt.Prelude.{
  ℕ, ◌+◌, ◌<◌, ◌≡◌, refl, sym, ◌∙◌, ap, String, inl, inr, false, none, some, List, [], ◌∷◌, arith,
  ℤ, ◌==◌, nat_eq, string_eq, Bool-cases, Option-cases, All, length, leb, Eq, nat_beq_iff, nat_beq,
  str_beq_iff,
}
use newt.Prelude.GoMap.{GoMap, lookup, insert, delete, lookup-insert, lookup-delete}
use newt.HostPort.{Text}
use newt.AccessLog.{AccessSession, UdpSessionKey, udp_eq}
use newt.AccessLog.Logger.{
  AccessLogger, Delivery, Delivered, deliver, settle, flush, complete, complete_udp,
  flush_when_full, end_tcp_session, end_udp_session, start_tcp_session, track_udp_session, key_of,
  udp_key, new_session, write, ended,
}

-- An active session is one object of the store, under its own id, and has not ended.
abbrev pub Active : AccessLogger → String → ℕ → Type 0
Active l id p = (p < l.next) × ((l.heap p).session_id ≡ id) × ((l.heap p).ended_at ≡ none)

-- An entry of the UDP map stands under the key of its session, which is active until it ends.
abbrev pub Tracked : AccessLogger → UdpSessionKey × ℕ → Type 0
Tracked l (key, p) =
    (p < l.next)
    × (key_of (l.heap p) ≡ key)
    × ((l.heap p).ended_at ≡ none → lookup (l.heap p).session_id l.sessions ≡ some p)

pub record IsConsistent (l : AccessLogger) : Type 0 where
  pub active : (id : String) (p : ℕ) → lookup id l.sessions ≡ some p → Active l id p
  pub tracked : All (Tracked l) l.udp_sessions

module _ {A : Type 0} where
  pub All-map : (P Q : A → Type 0) (l : List A) → ((a : A) → P a → Q a) → All P l → All Q l
  All-map P Q [] f h = tt
  All-map P Q (a ∷ l) f h = (f a h.0, All-map P Q l f h.1)

module _ {K V : Type 0} ⦃e : Eq K⦄ where
  pub All-delete : (P : K × V → Type 0) (k : K) (m : GoMap K V) → All P m → All P (delete k m)
  All-delete P k [] h = tt
  All-delete P k ((j, v) ∷ m) h = elim (Bool-cases (j == k)) [
    | inl e ↦ rw (e, delete) (All-delete P k m h.1)
    | inr e ↦ rw (e, delete) (h.0, All-delete P k m h.1)
  ]

  All-put :
      (P : K × V → Type 0) (k : K) (v : V) (m : GoMap K V)
      → P (k, v)
      → All P m
      → All P (insert k v m)
  All-put P k v [] hv h = (hv, tt)
  All-put P k v ((j, w) ∷ m) hv h = elim (Bool-cases (j == k)) [
    | inl e ↦ rw (e, insert) (hv, h.1)
    | inr e ↦ rw (e, insert) (h.0, All-put P k v m hv h.1)
  ]

write_other :
    (p q : ℕ) (s : AccessSession) (heap : ℕ → AccessSession)
    → (q ≡ p → ⊥)
    → write p s heap q ≡ heap q
write_other p q s heap ne = ground (arith, nat_beq_iff q p)

pub write_same : (p : ℕ) (s : AccessSession) (heap : ℕ → AccessSession) → write p s heap p ≡ s
write_same p s heap = ground (arith, nat_beq_iff p p)

-- ending an active session
complete-Active :
    (id : String) (p now : ℕ) (l : AccessLogger)
    → IsConsistent l
    → lookup id l.sessions ≡ some p
    → (id' : String) (q : ℕ) → lookup id' (complete id p now l).sessions ≡ some q
    → Active (complete id p now l) id' q
unfolding complete
complete-Active id p now l c here id' q h = elim (Bool-cases (id == id')) [
  | inl e ↦ absurd (ground (arith, e, h, lookup-delete id id' l.sessions))
  | inr e ↦
      let there : lookup id' l.sessions ≡ some q =
        ground (arith, h, lookup-delete id id' l.sessions) in
      let a = c.active id' q there in
      let other : (q ≡ p → ⊥) =
        λ eq. ground (arith, str_beq_iff id id', e, a.1, (c.active id p here).1, eq) in
      let eq = write_other p q (ended now (l.heap p)) l.heap other in
      (a.0, ap (λ s. s.session_id) eq ∙ a.1, ap (λ s. s.ended_at) eq ∙ a.2)
]

pub complete-Tracked :
    (id : String) (p now : ℕ) (l : AccessLogger)
    → IsConsistent l
    → lookup id l.sessions ≡ some p
    → (e : UdpSessionKey × ℕ) → Tracked l e
    → Tracked (complete id p now l) e
unfolding complete
complete-Tracked id p now l c here (key, q) t = elim (Bool-cases (nat_beq q p)) [
  | inl e ↦
      let eq : q ≡ p = (nat_beq_iff q p).0 e in
      let w : write p (ended now (l.heap p)) l.heap q ≡ ended now (l.heap p) =
        ap (write p (ended now (l.heap p)) l.heap) eq
        ∙ write_same p (ended now (l.heap p)) l.heap in
      (
        t.0,
        ap key_of w ∙ ap (λ x. key_of (l.heap x)) (sym eq) ∙ t.1,
        λ h. absurd (cc (ap (λ s. s.ended_at) w, h)),
      )
  | inr e ↦
      let eq =
        write_other p q (ended now (l.heap p)) l.heap
          (λ x. ground (arith, nat_beq_iff q p, e, x)) in
      (
        t.0,
        ap key_of eq ∙ t.1,
        λ h.
            let there = t.2 (sym (ap (λ s. s.ended_at) eq) ∙ h) in
            let other : (id == (l.heap q).session_id) ≡ false =
              ground
                (arith, str_beq_iff id (l.heap q).session_id, here, there, nat_beq_iff q p, e) in
            ap (λ x. lookup x.session_id (delete id l.sessions)) eq
            ∙ lookup-delete id (l.heap q).session_id l.sessions
            ∙ rw (other) there,
      )
]

pub complete-IsConsistent :
    (id : String) (p now : ℕ) (l : AccessLogger)
    → IsConsistent l
    → lookup id l.sessions ≡ some p
    → IsConsistent (complete id p now l)
unfolding complete
complete-IsConsistent id p now l c here = record {
  active = complete-Active id p now l c here;
  tracked =
      All-map (Tracked l) (Tracked (complete id p now l)) l.udp_sessions
        (complete-Tracked id p now l c here) c.tracked;
}

complete_udp-IsConsistent :
    (id : String) (p now : ℕ) (l : AccessLogger)
    → IsConsistent l
    → lookup id l.sessions ≡ some p
    → IsConsistent (complete_udp id p now l)
unfolding complete complete_udp
complete_udp-IsConsistent id p now l c here =
    let c' = complete-IsConsistent id p now l c here in
    record {
      active = c'.active;
      tracked =
          All-delete (Tracked (complete id p now l)) (key_of (l.heap p)) l.udp_sessions c'.tracked;
    }

settle-IsConsistent :
    (r : Delivered) (l : AccessLogger) → IsConsistent l → IsConsistent (settle r l)
unfolding settle
settle-IsConsistent Delivered.discarded l c = c
settle-IsConsistent Delivered.not_compressed l c = c
settle-IsConsistent (Delivered.sent b) l c = c
settle-IsConsistent (Delivered.unsent b) l c = record { active = c.active; tracked = c.tracked }

pub flush-IsConsistent :
    (d : Delivery) (l : AccessLogger) → IsConsistent l → IsConsistent (flush d l)
unfolding flush
flush-IsConsistent d l c = elim (Bool-cases (leb (length l.completed) 0)) [
  | inl e ↦ rw (e, flush) c
  | inr e ↦
      rw (e, flush)
        (settle-IsConsistent (deliver d l.has_send l.completed) (record l { completed = [] })
          (record { active = c.active; tracked = c.tracked }))
]

flush_when_full-IsConsistent :
    (d : Delivery) (l : AccessLogger) → IsConsistent l → IsConsistent (flush_when_full d l)
flush_when_full-IsConsistent d l c = elim (Bool-cases (leb 100 (length l.completed))) [
  | inl e ↦ rw (e) (flush-IsConsistent d l c)
  | inr e ↦ rw (e) c
]

pub end_tcp_session-IsConsistent :
    (d : Delivery) (id : String) (now : ℕ) (l : AccessLogger)
    → IsConsistent l
    → IsConsistent (end_tcp_session d id now l)
unfolding end_tcp_session
end_tcp_session-IsConsistent d id now l c = elim (Option-cases (lookup id l.sessions)) [
  | inl e ↦ rw (e, end_tcp_session) (flush_when_full-IsConsistent d l c)
  | inr (p, e) ↦
      rw (e, end_tcp_session)
        (flush_when_full-IsConsistent d (complete id p now l)
          (complete-IsConsistent id p now l c e))
]

pub end_udp_session-IsConsistent :
    (d : Delivery) (id : String) (now : ℕ) (l : AccessLogger)
    → IsConsistent l
    → IsConsistent (end_udp_session d id now l)
unfolding end_udp_session
end_udp_session-IsConsistent d id now l c = elim (Option-cases (lookup id l.sessions)) [
  | inl e ↦ rw (e, end_udp_session) (flush_when_full-IsConsistent d l c)
  | inr (p, e) ↦
      rw (e, end_udp_session)
        (flush_when_full-IsConsistent d (complete_udp id p now l)
          (complete_udp-IsConsistent id p now l c e))
]

-- the logger after a new object was made the active session `id`
abbrev add_session : String → AccessSession → AccessLogger → AccessLogger
add_session id s l = record l {
  heap = write l.next s l.heap;
  next = l.next + 1;
  sessions = insert id l.next l.sessions;
}

add_session-IsConsistent :
    (id : String) (s : AccessSession) (l : AccessLogger)
    → IsConsistent l
    → lookup id l.sessions ≡ none
    → s.session_id ≡ id
    → s.ended_at ≡ none
    → IsConsistent (add_session id s l)
add_session-IsConsistent id s l c fresh name unended = record {
  active = λ id' q h. elim (Bool-cases (id == id')) [
    | inl e ↦
        let q_eq : q ≡ l.next = ground (arith, e, h, lookup-insert id id' l.next l.sessions) in
        let w : write l.next s l.heap q ≡ s =
          ap (write l.next s l.heap) q_eq ∙ write_same l.next s l.heap in
        (
          omega (arith, q_eq),
          ap (λ x. x.session_id) w ∙ name ∙ (str_beq_iff id id').0 e,
          ap (λ x. x.ended_at) w ∙ unended,
        )
    | inr e ↦
        let there : lookup id' l.sessions ≡ some q =
          ground (arith, h, lookup-insert id id' l.next l.sessions) in
        let a = c.active id' q there in
        let w = write_other l.next q s l.heap (λ x. omega (arith, a.0, x)) in
        (omega (arith, a.0), ap (λ x. x.session_id) w ∙ a.1, ap (λ x. x.ended_at) w ∙ a.2)
  ];
  tracked =
      All-map (Tracked l) (Tracked (add_session id s l)) l.udp_sessions
        (λ (key, q) t.
          let w = write_other l.next q s l.heap (λ x. omega (arith, t.0, x)) in
          (
            omega (arith, t.0),
            ap key_of w ∙ t.1,
            λ h.
                let there = t.2 (sym (ap (λ x. x.ended_at) w) ∙ h) in
                let other : (id == (l.heap q).session_id) ≡ false =
                  ground (arith, str_beq_iff id (l.heap q).session_id, fresh, there) in
                ap (λ x. lookup x.session_id (insert id l.next l.sessions)) w
                ∙ lookup-insert id (l.heap q).session_id l.next l.sessions
                ∙ rw (other) there,
          ))
        c.tracked;
}

pub start_tcp_session-IsConsistent :
    (id : String) (now : ℕ) (resource : ℤ) (src dst : Text) (l : AccessLogger)
    → IsConsistent l
    → lookup id l.sessions ≡ none
    → IsConsistent (start_tcp_session id now resource src dst l)
unfolding start_tcp_session
start_tcp_session-IsConsistent id now resource src dst l c fresh =
    add_session-IsConsistent id (new_session id resource src dst "tcp" now) l c fresh refl refl

pub track_udp_session-IsConsistent :
    (id : String) (now : ℕ) (resource : ℤ) (src dst : Text) (l : AccessLogger)
    → IsConsistent l
    → lookup id l.sessions ≡ none
    → IsConsistent (track_udp_session id now resource src dst l).1
unfolding track_udp_session
track_udp_session-IsConsistent id now resource src dst l c fresh =
    elim (Option-cases (lookup (udp_key src dst) l.udp_sessions)) [
      | inl e ↦
          let s = new_session id resource src dst "udp" now in
          let l' = add_session id s l in
          let c' = add_session-IsConsistent id s l c fresh refl refl in
          let w = write_same l.next s l.heap in
          rw (e, track_udp_session)
            (record {
              active = c'.active;
              tracked =
                  All-put (Tracked l') (udp_key src dst) l.next l.udp_sessions
                    (
                      omega arith,
                      ap key_of w,
                      λ h.
                          ap (λ x. lookup x.session_id (insert id l.next l.sessions)) w
                          ∙ lookup-insert id id l.next l.sessions
                          ∙ ground (arith, str_beq_iff id id),
                    )
                    c'.tracked;
            })
      | inr (p, e) ↦ rw (e, track_udp_session) c
    ]
