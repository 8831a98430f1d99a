-- ===== src/AccessLog/Logger.antt =====
-- netstack2/access_log.go: `AccessLogger`. An active session is a pointer into a store of sessions,
-- since both maps of the logger point to it. A completed session is a value, as only sessions that
-- have not ended are written to. An operation reads the clock once. The background loop is the two
-- operations its tickers call.
pub mod Buffer
pub mod Consistency
pub mod Reachable
use newt.Prelude.{
  ℕ, ◌+◌, ◌*◌, String, Bool, true, false, ◌&&◌, Option, none, some, List, [], ◌∷◌, ◌++◌, ℤ, ltb,
  leb, length, take, ◌==◌, nat_eq, string_eq, if◌then◌else◌, is_some, from_option,
}
use newt.Prelude.GoMap.{GoMap, lookup, insert, delete}
use newt.HostPort.{Text}
use newt.AccessLog.{AccessSession, UdpSessionKey, udp_eq, max_buffered_sessions, stale_after}
use newt.AccessLog.Consolidate.{Sorter, consolidate_sessions}

pub record AccessLogger : Type 0 where
  pub heap : ℕ → AccessSession
  pub next : ℕ
  pub sessions : GoMap String ℕ
  pub udp_sessions : GoMap UdpSessionKey ℕ
  pub completed : List AccessSession
  pub has_send : Bool
  pub stopped : Bool

unfoldable pub new_access_logger : (ℕ → AccessSession) → AccessLogger
new_access_logger heap = record {
  heap = heap;
  next = 0;
  sessions = [];
  udp_sessions = [];
  completed = [];
  has_send = false;
  stopped = false;
}

unfoldable pub set_send_func : Bool → AccessLogger → AccessLogger
set_send_func given l = record l { has_send = given }

-- the JSON and zlib encoding, and the callback: `true` where it returns no error
pub record Delivery : Type 0 where
  pub sorter : Sorter
  pub compress : List AccessSession → Option String
  pub send : String → Bool

pub data Delivered : Type 0 where
  discarded : Delivered
  not_compressed : Delivered
  sent : List AccessSession → Delivered
  unsent : List AccessSession → Delivered

-- `flush` outside the lock
unfoldable pub deliver : Delivery → Bool → List AccessSession → Delivered
deliver d has_send batch =
    if has_send
    then (let merged = consolidate_sessions d.sorter batch in
        elim (d.compress merged) [
          | none ↦ Delivered.not_compressed
          | some payload ↦ if d.send payload then Delivered.sent merged else Delivered.unsent merged
        ])
    else Delivered.discarded

-- `flush` after the callback failed, under the lock again
unfoldable pub settle : Delivered → AccessLogger → AccessLogger
settle (Delivered.unsent batch) l = record l {
  completed =
      let all = batch ++ l.completed in
      if ltb (max_buffered_sessions * 5) (length all)
      then take (max_buffered_sessions * 5) all
      else all;
}
settle Delivered.discarded l = l
settle Delivered.not_compressed l = l
settle (Delivered.sent batch) l = l

unfoldable pub flush : Delivery → AccessLogger → AccessLogger
unfolding settle deliver
flush d l =
    if leb (length l.completed) 0
    then l
    else settle (deliver d l.has_send l.completed) (record l { completed = [] })

abbrev pub new_session : String → ℤ → Text → Text → String → ℕ → AccessSession
new_session id resource src dst protocol now = record {
  session_id = id;
  resource_id = resource;
  source_addr = src;
  dest_addr = dst;
  protocol = protocol;
  started_at = now;
  ended_at = none;
  bytes_tx = 0;
  bytes_rx = 0;
  connection_count = 0;
}

-- `EndedAt.IsZero()`
abbrev pub not_ended : AccessSession → Bool
not_ended s = elim s.ended_at [ none ↦ true | some _ ↦ false ]

abbrev pub write : ℕ → AccessSession → (ℕ → AccessSession) → ℕ → AccessSession
write p s heap q = if q == p then s else heap q

-- the session is a new object, and `id` is what `generateSessionID` returned
unfoldable pub start_tcp_session : String → ℕ → ℤ → Text → Text → AccessLogger → AccessLogger
start_tcp_session id now resource src dst l = record l {
  heap = write l.next (new_session id resource src dst "tcp" now) l.heap;
  next = l.next + 1;
  sessions = insert id l.next l.sessions;
}

abbrev pub ended : ℕ → AccessSession → AccessSession
ended now s = record s { ended_at = some now }

-- the common part of both ends: the session stops being active and is queued
unfoldable pub complete : String → ℕ → ℕ → AccessLogger → AccessLogger
complete id p now l =
    let s = ended now (l.heap p) in
    record l {
      heap = write p s l.heap;
      sessions = delete id l.sessions;
      completed = l.completed ++ s ∷ [];
    }

abbrev pub flush_when_full : Delivery → AccessLogger → AccessLogger
flush_when_full d l = if leb max_buffered_sessions (length l.completed) then flush d l else l

unfoldable pub end_tcp_session : Delivery → String → ℕ → AccessLogger → AccessLogger
unfolding complete flush
end_tcp_session d id now l = elim (lookup id l.sessions) [
  | none ↦ flush_when_full d l
  | some p ↦ flush_when_full d (complete id p now l)
]

abbrev pub udp_key : Text → Text → UdpSessionKey
udp_key src dst = record { src_addr = src; dst_addr = dst; protocol = "udp" }

unfoldable pub track_udp_session :
    String → ℕ → ℤ → Text → Text → AccessLogger → String × AccessLogger
track_udp_session id now resource src dst l = elim (lookup (udp_key src dst) l.udp_sessions) [
  | some p ↦ ((l.heap p).session_id, l)
  | none ↦ (
    id,
    record l {
      heap = write l.next (new_session id resource src dst "udp" now) l.heap;
      next = l.next + 1;
      sessions = insert id l.next l.sessions;
      udp_sessions = insert (udp_key src dst) l.next l.udp_sessions;
    },
  )
]

abbrev pub key_of : AccessSession → UdpSessionKey
key_of s = udp_key s.source_addr s.dest_addr

-- both maps lose the session
unfoldable pub complete_udp : String → ℕ → ℕ → AccessLogger → AccessLogger
unfolding complete
complete_udp id p now l =
    let l' = complete id p now l in
    record l' { udp_sessions = delete (key_of (l.heap p)) l.udp_sessions }

unfoldable pub end_udp_session : Delivery → String → ℕ → AccessLogger → AccessLogger
unfolding complete_udp flush
end_udp_session d id now l = elim (lookup id l.sessions) [
  | none ↦ flush_when_full d l
  | some p ↦ flush_when_full d (complete_udp id p now l)
]

-- one round of the loop of `reapStaleSessions`
unfoldable pub reap_one : ℕ → UdpSessionKey → ℕ → AccessLogger → AccessLogger
unfolding complete
reap_one now key p l =
    let s = l.heap p in
    if ltb (s.started_at + stale_after) now && not_ended s
    then (let l' = complete s.session_id p now l in
        record l' { udp_sessions = delete key l.udp_sessions })
    else l

unfoldable pub reap_each : ℕ → GoMap UdpSessionKey ℕ → AccessLogger → AccessLogger
unfolding reap_one
reap_each now [] l = l
reap_each now ((key, p) ∷ rest) l = reap_each now rest (reap_one now key p l)

unfoldable pub reap_stale_sessions : ℕ → AccessLogger → AccessLogger
unfolding reap_each
reap_stale_sessions now l = reap_each now l.udp_sessions l

-- the loop of `Close`
unfoldable pub shut_each : ℕ → GoMap String ℕ → AccessLogger → AccessLogger
shut_each now [] l = l
shut_each now ((id, p) ∷ rest) l =
    let s = l.heap p in
    shut_each now rest (
      if not_ended s
      then record l {
        heap = write p (ended now s) l.heap;
        completed = l.completed ++ ended now s ∷ [];
      }
      else l)

unfoldable pub close : Delivery → ℕ → AccessLogger → AccessLogger
unfolding shut_each flush
close d now l =
    if l.stopped
    then l
    else (let l' = shut_each now l.sessions (record l { stopped = true }) in
        flush d (record l' { sessions = []; udp_sessions = [] }))
