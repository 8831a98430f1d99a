-- ===== src/AccessLog/Logger/Reachable.antt =====
-- netstack2/access_log.go: the loggers that the operations reach, and what holds in each of them.
use newt.Prelude.{
  ℕ, ◌+◌, ◌≡◌, refl, sym, ◌∙◌, ap, subst, String, inl, inr, Bool, true, none, some, [], ◌∷◌, arith,
  ℤ, ◌==◌, string_eq, Bool-cases, Option-cases, All, ltb, ◌&&◌, Eq, length, leb,
}
use newt.Prelude.GoMap.{GoMap, lookup, insert, delete, lookup-insert, lookup-delete}
use newt.HostPort.{Text}
use newt.AccessLog.{AccessSession, UdpSessionKey, udp_eq, udp_beq_iff, stale_after}
use newt.AccessLog.Logger.{
  AccessLogger, Delivery, deliver, settle, Delivered, flush, complete, complete_udp,
  flush_when_full, end_tcp_session, end_udp_session, close, shut_each, start_tcp_session,
  track_udp_session, udp_key, key_of, reap_one, reap_each, reap_stale_sessions, set_send_func,
  new_access_logger, not_ended, write, new_session,
}
use newt.AccessLog.Logger.Consistency.{
  Tracked, IsConsistent, All-map, All-delete, complete-Tracked, complete-IsConsistent,
  flush-IsConsistent, end_tcp_session-IsConsistent, end_udp_session-IsConsistent,
  start_tcp_session-IsConsistent, track_udp_session-IsConsistent, write_same,
}

reap_one-IsConsistent :
    (now : ℕ) (key : UdpSessionKey) (p : ℕ) (l : AccessLogger)
    → IsConsistent l
    → Tracked l (key, p)
    → IsConsistent (reap_one now key p l)
      × ((e : UdpSessionKey × ℕ) → Tracked l e → Tracked (reap_one now key p l) e)
unfolding reap_one complete
reap_one-IsConsistent now key p l c t =
    elim (Bool-cases (ltb ((l.heap p).started_at + stale_after) now && not_ended (l.heap p))) [
      | inl e ↦
          let unended : (l.heap p).ended_at ≡ none = ground (arith, e) in
          let id = (l.heap p).session_id in
          let there = t.2 unended in
          let c' = complete-IsConsistent id p now l c there in
          rw (e, reap_one)
            (
              record {
                active = c'.active;
                tracked = All-delete (Tracked (complete id p now l)) key l.udp_sessions c'.tracked;
              },
              complete-Tracked id p now l c there,
            )
      | inr e ↦ rw (e, reap_one) (c, λ e' t'. t')
    ]

reap_each-IsConsistent :
    (now : ℕ) (m : GoMap UdpSessionKey ℕ) (l : AccessLogger)
    → IsConsistent l
    → All (Tracked l) m
    → IsConsistent (reap_each now m l)
unfolding reap_each
reap_each-IsConsistent now [] l c h = c
reap_each-IsConsistent now ((key, p) ∷ m) l c h =
    let r = reap_one-IsConsistent now key p l c h.0 in
    reap_each-IsConsistent now m (reap_one now key p l) r.0
      (All-map (Tracked l) (Tracked (reap_one now key p l)) m r.1 h.1)

-- settling does not touch the maps
settle-maps :
    (r : Delivered) (l : AccessLogger)
    → ((settle r l).sessions ≡ l.sessions) × ((settle r l).udp_sessions ≡ l.udp_sessions)
unfolding settle
settle-maps Delivered.discarded l = (refl, refl)
settle-maps Delivered.not_compressed l = (refl, refl)
settle-maps (Delivered.sent b) l = (refl, refl)
settle-maps (Delivered.unsent b) l = (refl, refl)

flush-maps :
    (d : Delivery) (l : AccessLogger)
    → ((flush d l).sessions ≡ l.sessions) × ((flush d l).udp_sessions ≡ l.udp_sessions)
unfolding flush
flush-maps d l = elim (Bool-cases (leb (length l.completed) 0)) [
  | inl e ↦ rw (e, flush) (refl, refl)
  | inr e ↦
      rw (e, flush) (settle-maps (deliver d l.has_send l.completed) (record l { completed = [] }))
]

flush_when_full-maps :
    (d : Delivery) (l : AccessLogger)
    → ((flush_when_full d l).sessions ≡ l.sessions)
      × ((flush_when_full d l).udp_sessions ≡ l.udp_sessions)
flush_when_full-maps d l = ground (arith, flush-maps d l)

close-IsConsistent :
    (d : Delivery) (now : ℕ) (l : AccessLogger) → IsConsistent l → IsConsistent (close d now l)
unfolding close
close-IsConsistent d now l c = elim (Bool-cases l.stopped) [
  | inl e ↦ rw (e, close) (record { active = c.active; tracked = c.tracked })
  | inr e ↦
      rw (e, close)
        (let l' = shut_each now l.sessions (record l { stopped = true }) in
          flush-IsConsistent d (record l' { sessions = []; udp_sessions = [] })
            (record { active = λ id p h. absurd (cc h); tracked = tt }))
]

-- A call of the logger. The id that a session starts with, which the code takes from eight random
-- bytes, is not the id of an active session.
pub data Step (l : AccessLogger) : AccessLogger → Type 0 where
  set_send : (given : Bool) → Step l (set_send_func given l)
  start_tcp :
      (id : String) (now : ℕ) (resource : ℤ) (src dst : Text)
      → lookup id l.sessions ≡ none
      → Step l (start_tcp_session id now resource src dst l)
  end_tcp : (d : Delivery) (id : String) (now : ℕ) → Step l (end_tcp_session d id now l)
  track_udp :
      (id : String) (now : ℕ) (resource : ℤ) (src dst : Text)
      → lookup id l.sessions ≡ none
      → Step l (track_udp_session id now resource src dst l).1
  end_udp : (d : Delivery) (id : String) (now : ℕ) → Step l (end_udp_session d id now l)
  reap : (now : ℕ) → Step l (reap_stale_sessions now l)
  flushed : (d : Delivery) → Step l (flush d l)
  closed : (d : Delivery) (now : ℕ) → Step l (close d now l)

pub data Reach : AccessLogger → Type 0 where
  start : (heap : ℕ → AccessSession) → Reach (new_access_logger heap)
  then : {l l' : AccessLogger} → Reach l → Step l l' → Reach l'

Step-IsConsistent : {l l' : AccessLogger} → Step l l' → IsConsistent l → IsConsistent l'
unfolding set_send_func reap_stale_sessions
Step-IsConsistent (Step.set_send given) c = record { active = c.active; tracked = c.tracked }
Step-IsConsistent {l} (Step.start_tcp id now r src dst h) c =
    start_tcp_session-IsConsistent id now r src dst l c h
Step-IsConsistent {l} (Step.end_tcp d id now) c = end_tcp_session-IsConsistent d id now l c
Step-IsConsistent {l} (Step.track_udp id now r src dst h) c =
    track_udp_session-IsConsistent id now r src dst l c h
Step-IsConsistent {l} (Step.end_udp d id now) c = end_udp_session-IsConsistent d id now l c
Step-IsConsistent {l} (Step.reap now) c = reap_each-IsConsistent now l.udp_sessions l c c.tracked
Step-IsConsistent {l} (Step.flushed d) c = flush-IsConsistent d l c
Step-IsConsistent {l} (Step.closed d now) c = close-IsConsistent d now l c

-- In every logger that calls reach, an active session is one object of the store, under its own id,
-- and has not ended; and each entry of the UDP map stands under the addresses of its session, which
-- is active as long as it has not ended.
pub Reach-IsConsistent : {l : AccessLogger} → Reach l → IsConsistent l
unfolding new_access_logger
Reach-IsConsistent (Reach.start heap) = record { active = λ id p h. absurd (cc h); tracked = tt }
Reach-IsConsistent (Reach.then r s) = Step-IsConsistent s (Reach-IsConsistent r)

module _ {K V : Type 0} ⦃e : Eq K⦄ where
  All-found :
      (P : K × V → Type 0) (key : K) (v : V) (m : GoMap K V)
      → All P m
      → lookup key m ≡ some v
      → P (key, v)
  All-found P key v [] h found = absurd (cc found)
  All-found P key v ((k, w) ∷ m) h found = elim (Bool-cases (k == key)) [
    | inl x ↦
        let same : k ≡ key = (e.beq_iff k key).0 x in
        let same' : w ≡ v = ground (arith, x, found) in subst P (cc (same, same')) h.0
    | inr x ↦ All-found P key v m h.1 (ground (arith, x, found))
  ]

end_udp_session-maps :
    (d : Delivery) (id : String) (p now : ℕ) (l : AccessLogger)
    → lookup id l.sessions ≡ some p
    → ((end_udp_session d id now l).sessions ≡ delete id l.sessions)
      × ((end_udp_session d id now l).udp_sessions ≡ delete (key_of (l.heap p)) l.udp_sessions)
unfolding end_udp_session complete_udp complete
end_udp_session-maps d id p now l here =
    rw (here, end_udp_session) (flush_when_full-maps d (complete_udp id p now l))

track_udp_session-new :
    (id : String) (now : ℕ) (resource : ℤ) (src dst : Text) (l : AccessLogger)
    → lookup (udp_key src dst) l.udp_sessions ≡ none
    → (track_udp_session id now resource src dst l).0 ≡ id
unfolding track_udp_session
track_udp_session-new id now resource src dst l h = rw (h, track_udp_session) refl

deleted : {K V : Type 0} ⦃e : Eq K⦄ (k j : K) (m : GoMap K V) → k ≡ j → lookup j (delete k m) ≡ none
deleted ⦃e⦄ k j m h = lookup-delete k j m ∙ ground (arith, e.beq_iff k j, h)

-- In a logger that calls reach, ending the unended session that the UDP map has for a pair of
-- addresses makes the session inactive, and the next packet between the addresses starts a new one.
pub end_udp_session-forgets :
    (d : Delivery) (now : ℕ) {l : AccessLogger}
    → Reach l
    → (src dst : Text) (p : ℕ) → lookup (udp_key src dst) l.udp_sessions ≡ some p
    → (l.heap p).ended_at ≡ none
    → let l' = end_udp_session d (l.heap p).session_id now l in
      (lookup (l.heap p).session_id l'.sessions ≡ none)
      × ((id : String) (at : ℕ) (resource : ℤ)
          → (track_udp_session id at resource src dst l').0 ≡ id)
end_udp_session-forgets d now {l} r src dst p found unended =
    let t =
      All-found (Tracked l) (udp_key src dst) p l.udp_sessions (Reach-IsConsistent r).tracked
        found in
    let id = (l.heap p).session_id in
    let m = end_udp_session-maps d id p now l (t.2 unended) in
    (
      ap (lookup id) m.0 ∙ deleted id id l.sessions refl,
      λ id' at resource.
          track_udp_session-new id' at resource src dst (end_udp_session d id now l) (
            ap (lookup (udp_key src dst)) m.1
            ∙ deleted (key_of (l.heap p)) (udp_key src dst) l.udp_sessions t.1),
    )

abbrev tracked_new : String → ℕ → ℤ → Text → Text → AccessLogger → AccessLogger
tracked_new id now resource src dst l = record l {
  heap = write l.next (new_session id resource src dst "udp" now) l.heap;
  next = l.next + 1;
  sessions = insert id l.next l.sessions;
  udp_sessions = insert (udp_key src dst) l.next l.udp_sessions;
}

track_udp_session-fresh :
    (id : String) (now : ℕ) (resource : ℤ) (src dst : Text) (l : AccessLogger)
    → lookup (udp_key src dst) l.udp_sessions ≡ none
    → track_udp_session id now resource src dst l ≡ (id, tracked_new id now resource src dst l)
unfolding track_udp_session
track_udp_session-fresh id now resource src dst l h = rw (h, track_udp_session) refl

track_udp_session-found :
    (id : String) (now : ℕ) (resource : ℤ) (src dst : Text) (l : AccessLogger) (p : ℕ)
    → lookup (udp_key src dst) l.udp_sessions ≡ some p
    → track_udp_session id now resource src dst l ≡ ((l.heap p).session_id, l)
unfolding track_udp_session
track_udp_session-found id now resource src dst l p h = rw (h, track_udp_session) refl

-- As long as the UDP map has a session for a pair of addresses, tracking another packet between them
-- gives its id and changes nothing; and tracking a first packet makes it so.
pub track_udp_session-again :
    (id id' : String) (now now' : ℕ) (resource resource' : ℤ) (src dst : Text) (l : AccessLogger)
    → let first = track_udp_session id now resource src dst l in
      track_udp_session id' now' resource' src dst first.1 ≡ first
track_udp_session-again id id' now now' resource resource' src dst l =
    elim (Option-cases (lookup (udp_key src dst) l.udp_sessions)) [
      | inl e ↦
          let f = track_udp_session-fresh id now resource src dst l e in
          let l1 = tracked_new id now resource src dst l in
          let s = new_session id resource src dst "udp" now in
          let key = udp_key src dst in
          ap (λ x. track_udp_session id' now' resource' src dst x.1) f
          ∙ track_udp_session-found id' now' resource' src dst l1 l.next
              (lookup-insert key key l.next l.udp_sessions ∙ ground (arith, udp_beq_iff key key))
          ∙ ap (λ x. (x.session_id, l1)) (write_same l.next s l.heap)
          ∙ sym f
      | inr (p, e) ↦
          let f = track_udp_session-found id now resource src dst l p e in
          ap (λ x. track_udp_session id' now' resource' src dst x.1) f
          ∙ track_udp_session-found id' now' resource' src dst l p e
          ∙ sym f
    ]
