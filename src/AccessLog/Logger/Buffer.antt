-- ===== src/AccessLog/Logger/Buffer.antt =====
-- netstack2/access_log.go: the buffer of completed sessions and its flushes.
use newt.Prelude.{
  ℕ, ◌+◌, ◌≤◌, ◌≡◌, sym, ◌∙◌, String, inl, inr, true, List, [], ◌++◌, arith, ltb, leb, add64,
  length, take, length-take, length-append, take_of_length-le, take_append, if◌then◌else◌,
  Bool-cases, Option-cases, is_some, string_eq,
}
use newt.Prelude.GoMap.{lookup}
use newt.AccessLog.{AccessSession}
use newt.AccessLog.Consolidate.{consolidate_sessions}
use newt.AccessLog.Consolidate.Totals.{
  bytes_tx_of, bytes_rx_of, total, total-append, total-consolidate_sessions, IsAdditive, Anything,
  All-Anything, tx-IsAdditive, rx-IsAdditive,
}
use newt.AccessLog.Logger.{
  AccessLogger, Delivery, Delivered, deliver, settle, flush, complete, complete_udp,
  flush_when_full, end_tcp_session, end_udp_session,
}

length-cap-le :
    {A : Type 0} (n : ℕ) (xs : List A) → length (if ltb n (length xs) then take n xs else xs) ≤ n
length-cap-le n xs = ground (arith, length-take n xs)

length-settle-le :
    (r : Delivered) (l : AccessLogger)
    → length l.completed ≤ 500
    → length (settle r l).completed ≤ 500
unfolding settle
length-settle-le Delivered.discarded l h = h
length-settle-le Delivered.not_compressed l h = h
length-settle-le (Delivered.sent b) l h = h
length-settle-le (Delivered.unsent b) l h = length-cap-le 500 (b ++ l.completed)

length-flush-le : (d : Delivery) (l : AccessLogger) → length (flush d l).completed ≤ 500
unfolding flush
length-flush-le d l = elim (Bool-cases (leb (length l.completed) 0)) [
  | inl e ↦ rw (e, flush) (ground arith)
  | inr e ↦
      rw (e, flush)
        (length-settle-le (deliver d l.has_send l.completed) (record l { completed = [] })
          (omega arith))
]

length-flush_when_full-le :
    (d : Delivery) (l : AccessLogger) → length (flush_when_full d l).completed ≤ 500
length-flush_when_full-le d l = ground (arith, length-flush-le d l)

-- Whatever the buffer was before and whether or not the server can be reached, at most 500 sessions
-- are buffered after the end of a session of either protocol is logged, and after a flush.
pub length-end_session-le :
    (d : Delivery) (id : String) (now : ℕ) (l : AccessLogger)
    → (length (end_tcp_session d id now l).completed ≤ 500)
      × (length (end_udp_session d id now l).completed ≤ 500)
      × (length (flush d l).completed ≤ 500)
unfolding end_tcp_session end_udp_session
length-end_session-le d id now l = elim (Option-cases (lookup id l.sessions)) [
  | inl e ↦
      rw (e, end_tcp_session, end_udp_session)
        (length-flush_when_full-le d l, length-flush_when_full-le d l, length-flush-le d l)
  | inr (p, e) ↦
      rw (e, end_tcp_session, end_udp_session)
        (
          length-flush_when_full-le d (complete id p now l),
          length-flush_when_full-le d (complete_udp id p now l),
          length-flush-le d l,
        )
]

-- When a batch of at least 500 sessions could not be sent, the buffer is the first 500 sessions of
-- that batch, and all sessions completed since then are dropped.
pub settle-unsent :
    (batch : List AccessSession) (l : AccessLogger)
    → 500 ≤ length batch
    → (settle (Delivered.unsent batch) l).completed ≡ take 500 batch
unfolding settle
settle-unsent batch l h = elim (Bool-cases (ltb 500 (length (batch ++ l.completed)))) [
  | inl e ↦ rw (e, settle) (take_append 500 batch l.completed h)
  | inr e ↦
      rw (e, settle)
        (sym (take_of_length-le 500 (batch ++ l.completed) (ground arith))
          ∙ take_append 500 batch l.completed h)
]

-- the sessions that the server was sent
abbrev pub sent_of : Delivered → List AccessSession
sent_of Delivered.discarded = []
sent_of Delivered.not_compressed = []
sent_of (Delivered.sent b) = b
sent_of (Delivered.unsent b) = []

module _ (f : AccessSession → ℕ) (x : IsAdditive add64 Anything f) where
  deliver-total :
      (d : Delivery) (batch : List AccessSession) (l : AccessLogger)
      → is_some (d.compress (consolidate_sessions d.sorter batch)) ≡ true
      → length (consolidate_sessions d.sorter batch) + length l.completed ≤ 500
      → total add64 f
          (sent_of (deliver d true batch) ++ (settle (deliver d true batch) l).completed)
          0
        ≡ total add64 f (batch ++ l.completed) 0
  unfolding deliver settle
  deliver-total d batch l ok short =
      let merged = consolidate_sessions d.sorter batch in
      let same : total add64 f (merged ++ l.completed) 0 ≡ total add64 f (batch ++ l.completed) 0 =
        total-append add64 Anything f x merged l.completed 0
        ∙ total-consolidate_sessions add64 Anything f x d.sorter batch (total add64 f l.completed 0)
            (All-Anything batch)
        ∙ sym (total-append add64 Anything f x batch l.completed 0) in
      elim (Option-cases (d.compress merged)) [
        | inl e ↦ absurd (cc (e, ok))
        | inr (payload, e) ↦ elim (Bool-cases (d.send payload)) [
          | inl s ↦ rw (e, s, deliver, settle) same
          | inr s ↦ elim (Bool-cases (ltb 500 (length (merged ++ l.completed)))) [
            | inl c ↦ absurd (ground (arith, length-append merged l.completed))
            | inr c ↦ rw (e, s, c, deliver, settle) same
          ]
        ]
      ]

-- Where a send function is set, the batch can be encoded and the buffer has room for the batch
-- together with the sessions completed meanwhile, a flush loses no bytes: what was sent and what is
-- buffered afterwards has the totals of the batch and of those sessions, modulo 2^64, whether the
-- send succeeds or fails.
pub deliver-totals :
    (d : Delivery) (batch : List AccessSession) (l : AccessLogger)
    → is_some (d.compress (consolidate_sessions d.sorter batch)) ≡ true
    → length (consolidate_sessions d.sorter batch) + length l.completed ≤ 500
    → (bytes_tx_of (sent_of (deliver d true batch) ++ (settle (deliver d true batch) l).completed)
        ≡ bytes_tx_of (batch ++ l.completed))
      × (bytes_rx_of (sent_of (deliver d true batch) ++ (settle (deliver d true batch) l).completed)
          ≡ bytes_rx_of (batch ++ l.completed))
deliver-totals d batch l ok short = (
  deliver-total (λ s. s.bytes_tx) tx-IsAdditive d batch l ok short,
  deliver-total (λ s. s.bytes_rx) rx-IsAdditive d batch l ok short,
)
