-- ===== src/RequestLog.antt =====
-- netstack2/http_request_log.go: `HTTPRequestLogger`. The JSON and zlib encoding and the callback are
-- a `Delivery`; the background loop is the flushes its ticker calls.
mod Tests
use newt.Prelude.{
  ℕ, ◌+◌, ◌*◌, ◌≤◌, ◌≡◌, refl, sym, ◌∙◌, ap, String, inl, inr, Bool, true, false, Option, none,
  some, List, [], ◌∷◌, ◌++◌, arith, ℤ, ltb, leb, ◌==◌, string_eq, length, take, length-take,
  length-append, is_some, if◌then◌else◌, Bool-cases, Option-cases,
}
use newt.AccessLog.{max_buffered_sessions}

pub record HttpRequestLog : Type 0 where
  pub request_id : String
  pub resource_id : ℤ
  pub timestamp : ℕ
  pub method : String
  pub scheme : String
  pub host : String
  pub path : String
  pub raw_query : String
  pub user_agent : String
  pub source_addr : String
  pub tls : Bool

pub record HttpRequestLogger : Type 0 where
  pub pending : List HttpRequestLog
  pub has_send : Bool
  pub stopped : Bool

unfoldable pub new_http_request_logger : HttpRequestLogger
new_http_request_logger = record { pending = []; has_send = false; stopped = false }

unfoldable pub set_send_func : Bool → HttpRequestLogger → HttpRequestLogger
set_send_func given l = record l { has_send = given }

pub record Delivery : Type 0 where
  pub compress : List HttpRequestLog → Option String
  pub send : String → Bool

pub data Delivered : Type 0 where
  discarded : Delivered
  not_compressed : Delivered
  sent : List HttpRequestLog → Delivered
  unsent : List HttpRequestLog → Delivered

-- `flush` outside the lock
unfoldable pub deliver : Delivery → Bool → List HttpRequestLog → Delivered
deliver d has_send batch =
    if has_send
    then elim (d.compress batch) [
      | none ↦ Delivered.not_compressed
      | some payload ↦ if d.send payload then Delivered.sent batch else Delivered.unsent batch
    ]
    else Delivered.discarded

-- `flush` after the callback failed, under the lock again
unfoldable pub settle : Delivered → HttpRequestLogger → HttpRequestLogger
settle (Delivered.unsent batch) l = record l {
  pending =
      let all = batch ++ l.pending in
      if ltb (max_buffered_sessions * 5) (length all)
      then take (max_buffered_sessions * 5) all
      else all;
}
settle Delivered.discarded l = l
settle Delivered.not_compressed l = l
settle (Delivered.sent batch) l = l

unfoldable pub flush : Delivery → HttpRequestLogger → HttpRequestLogger
unfolding settle deliver
flush d l =
    if leb (length l.pending) 0
    then l
    else settle (deliver d l.has_send l.pending) (record l { pending = [] })

-- `id` is what `generateSessionID` returned
abbrev pub with_id : String → HttpRequestLog → HttpRequestLog
with_id id log = if log.request_id == "" then record log { request_id = id } else log

unfoldable pub log_request :
    Delivery → String → HttpRequestLog → HttpRequestLogger → HttpRequestLogger
unfolding flush
log_request d id log l =
    let l' = record l { pending = l.pending ++ with_id id log ∷ [] } in
    if leb max_buffered_sessions (length l'.pending) then flush d l' else l'

unfoldable pub close : Delivery → HttpRequestLogger → HttpRequestLogger
unfolding flush
close d l = if l.stopped then l else flush d (record l { stopped = true })

length-cap-le :
    {A : Type 0} (n : ℕ) (xs : List A) → length (if ltb n (length xs) then take n xs else xs) ≤ n
length-cap-le n xs = ground (arith, length-take n xs)

length-settle-le :
    (r : Delivered) (l : HttpRequestLogger)
    → length l.pending ≤ 500
    → length (settle r l).pending ≤ 500
unfolding settle
length-settle-le Delivered.discarded l h = h
length-settle-le Delivered.not_compressed l h = h
length-settle-le (Delivered.sent b) l h = h
length-settle-le (Delivered.unsent b) l h = length-cap-le 500 (b ++ l.pending)

length-flush-le : (d : Delivery) (l : HttpRequestLogger) → length (flush d l).pending ≤ 500
unfolding flush
length-flush-le d l = elim (Bool-cases (leb (length l.pending) 0)) [
  | inl e ↦ rw (e, flush) (ground arith)
  | inr e ↦
      rw (e, flush)
        (length-settle-le (deliver d l.has_send l.pending) (record l { pending = [] })
          (omega arith))
]

-- Whatever the buffer was before and whether or not the server can be reached, at most 500 requests
-- are buffered after a request is logged.
pub length-log_request-le :
    (d : Delivery) (id : String) (log : HttpRequestLog) (l : HttpRequestLogger)
    → length (log_request d id log l).pending ≤ 500
unfolding log_request
length-log_request-le d id log l =
    let l' = record l { pending = l.pending ++ with_id id log ∷ [] } in
    elim (Bool-cases (leb max_buffered_sessions (length l'.pending))) [
      | inl e ↦ rw (e, log_request) (length-flush-le d l')
      | inr e ↦ rw (e, log_request) (ground arith)
    ]

abbrev pub sent_of : Delivered → List HttpRequestLog
sent_of Delivered.discarded = []
sent_of Delivered.not_compressed = []
sent_of (Delivered.sent b) = b
sent_of (Delivered.unsent b) = []

-- Where a send function is set, the batch can be encoded and the buffer has room for it together with
-- the requests logged meanwhile, a flush loses no request: the requests sent, followed by those
-- buffered afterwards, are the batch followed by the requests logged meanwhile, in this order.
pub deliver-keeps :
    (d : Delivery) (batch : List HttpRequestLog) (l : HttpRequestLogger)
    → is_some (d.compress batch) ≡ true
    → length batch + length l.pending ≤ 500
    → sent_of (deliver d true batch) ++ (settle (deliver d true batch) l).pending
      ≡ batch ++ l.pending
unfolding deliver settle
deliver-keeps d batch l ok short = elim (Option-cases (d.compress batch)) [
  | inl e ↦ absurd (cc (e, ok))
  | inr (payload, e) ↦ elim (Bool-cases (d.send payload)) [
    | inl s ↦ rw (e, s, deliver, settle) refl
    | inr s ↦ elim (Bool-cases (ltb 500 (length (batch ++ l.pending)))) [
      | inl c ↦ absurd (ground (arith, length-append batch l.pending))
      | inr c ↦ rw (e, s, c, deliver, settle) refl
    ]
  ]
]
