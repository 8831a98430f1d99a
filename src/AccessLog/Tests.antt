-- ===== src/AccessLog/Tests.antt =====
-- netstack2/access_log.go: runs of the access logger.
use mathlib.Core.List.{Permᴰ}
use newt.Prelude.{
  string_eq, ℕ, ◌+◌, ◌≤◌, ◌≡◌, refl, String, true, false, some, List, [], ◌∷◌, ◌++◌, pos, arith,
  All, length, leb, if◌then◌else◌, Bool-cases, inl, inr, map,
}
use newt.HostPort.{text, split_host_port}
use newt.AccessLog.{AccessSession, ConsolidationKey}
use newt.AccessLog.Consolidate.{
  Sorter, IsAscending, consolidate_sessions, merge_group, group_key, group_sessions, merge_groups,
  walk, merge_into, start_run, finalize, extract_ip, within_gap,
}
use newt.AccessLog.Consolidate.Totals.{
  bytes_tx_of, bytes_rx_of, connections_of, consolidate_sessions-totals, IsFresh,
}
use newt.AccessLog.Consolidate.Gaps.{IsSeparated, IsCovered, merge_group-IsSeparated}
use newt.AccessLog.Consolidate.Requeued.{connections_sum, connections_sum-merge_group}
use newt.AccessLog.Logger.{
  AccessLogger, Delivery, deliver, settle, flush, end_tcp_session, end_udp_session,
  track_udp_session, new_access_logger,
}
use newt.AccessLog.Logger.Buffer.{length-end_session-le, sent_of, deliver-totals}
use newt.AccessLog.Logger.Consistency.{IsConsistent}
use newt.AccessLog.Logger.Reachable.{Reach, Step, Reach-IsConsistent}

-- an insertion sort by start time
unfoldable insert_by : AccessSession → List AccessSession → List AccessSession
insert_by s [] = s ∷ []
insert_by s (t ∷ l) =
    let rest = insert_by s l in if leb s.started_at t.started_at then s ∷ t ∷ l else t ∷ rest

unfoldable sort_sessions : List AccessSession → List AccessSession
unfolding insert_by
sort_sessions [] = []
sort_sessions (s ∷ l) = insert_by s (sort_sessions l)

perm_refl : (l : List AccessSession) → Permᴰ l l
perm_refl [] = Permᴰ.nil
perm_refl (s ∷ l) = Permᴰ.cons refl (perm_refl l)

insert_by-perm : (s : AccessSession) (l : List AccessSession) → Permᴰ (insert_by s l) (s ∷ l)
unfolding insert_by
insert_by-perm s [] = perm_refl (s ∷ [])
insert_by-perm s (t ∷ l) = elim (Bool-cases (leb s.started_at t.started_at)) [
  | inl e ↦ rw (e, insert_by) (perm_refl (s ∷ t ∷ l))
  | inr e ↦
      rw (e, insert_by) (Permᴰ.trans (Permᴰ.cons refl (insert_by-perm s l)) (Permᴰ.swap refl refl))
]

insert_by-IsAscending :
    (s : AccessSession) (l : List AccessSession) → IsAscending l → IsAscending (insert_by s l)
unfolding insert_by
insert_by-IsAscending s [] h = tt
insert_by-IsAscending s (t ∷ []) h = ground arith
insert_by-IsAscending s (t ∷ u ∷ l) h = ground (arith, insert_by-IsAscending s (u ∷ l) h.1)

sort-perm : (l : List AccessSession) → Permᴰ (sort_sessions l) l
unfolding sort_sessions
sort-perm [] = Permᴰ.nil
sort-perm (s ∷ l) = Permᴰ.trans (insert_by-perm s (sort_sessions l)) (Permᴰ.cons refl (sort-perm l))

sort-IsAscending : (l : List AccessSession) → IsAscending (sort_sessions l)
unfolding sort_sessions
sort-IsAscending [] = tt
sort-IsAscending (s ∷ l) = insert_by-IsAscending s (sort_sessions l) (sort-IsAscending l)

unfoldable sorter : Sorter
unfolding sort_sessions
sorter = record { sort = sort_sessions; sort-perm = sort-perm; sort-IsAscending = sort-IsAscending }

abbrev session : String → String → ℕ → ℕ → ℕ → AccessSession
session id src from until bytes = record {
  session_id = id;
  resource_id = pos 7;
  source_addr = text src;
  dest_addr = text "h:1";
  protocol = "tcp";
  started_at = from;
  ended_at = some until;
  bytes_tx = bytes;
  bytes_rx = bytes + 1;
  connection_count = 0;
}

-- two connections of one burst, out of order, and one of another client
abbrev burst : List AccessSession
burst = session "b" "c:2" 20 30 5 ∷ session "a" "c:1" 10 15 4 ∷ session "x" "d:1" 12 16 1 ∷ []

consolidate_sessions-totals_example :
    (bytes_tx_of (consolidate_sessions sorter burst) ≡ bytes_tx_of burst)
    × (bytes_rx_of (consolidate_sessions sorter burst) ≡ bytes_rx_of burst)
    × (All IsFresh burst
        → connections_of (consolidate_sessions sorter burst) ≡ connections_of burst)
consolidate_sessions-totals_example = consolidate_sessions-totals sorter burst

-- the burst becomes one session of two connections
burst_test : map (λ s. s.connection_count) (consolidate_sessions sorter burst) ≡ 2 ∷ 0 ∷ []
unfolding consolidate_sessions group_sessions merge_groups merge_group walk merge_into start_run
    finalize group_key extract_ip split_host_port sorter within_gap
burst_test = refl

abbrev pair : List AccessSession
pair = session "b" "c:2" 20 30 5 ∷ session "a" "c:1" 10 15 4 ∷ []

abbrev key : ConsolidationKey
key = record { source_ip = text "c"; dest_addr = text "h:1"; protocol = "tcp"; resource_id = pos 7 }

merge_group-IsSeparated_example :
    IsSeparated (merge_group sorter key pair) × All (IsCovered (merge_group sorter key pair)) pair
merge_group-IsSeparated_example =
    merge_group-IsSeparated sorter key pair (omega arith) (omega arith, (omega arith, tt))

connections_sum-merge_group_example : connections_sum (merge_group sorter key pair) ≡ 2
connections_sum-merge_group_example = connections_sum-merge_group sorter key pair (omega arith)

abbrev delivery : Delivery
delivery = record { sorter = sorter; compress = λ l. some "x"; send = λ s. false }

abbrev initial : AccessLogger
unfolding new_access_logger
initial = new_access_logger (λ p. session "none" "" 0 0 0)

length-end_session-le_example :
    (length (end_tcp_session delivery "a" 9 initial).completed ≤ 500)
    × (length (end_udp_session delivery "a" 9 initial).completed ≤ 500)
    × (length (flush delivery initial).completed ≤ 500)
length-end_session-le_example = length-end_session-le delivery "a" 9 initial

abbrev repeated : ℕ → List AccessSession
repeated Prim.Native.Nat.zero = []
repeated (Prim.Native.Nat.suc n) = session "r" "c:1" 0 1 1 ∷ repeated n

length-repeated : (n : ℕ) → length (repeated n) ≡ n
length-repeated Prim.Native.Nat.zero = refl
length-repeated (Prim.Native.Nat.suc n) = omega (arith, length-repeated n)

deliver-totals_example :
    (bytes_tx_of (
        sent_of (deliver delivery true pair)
        ++ (settle (deliver delivery true pair) initial).completed)
      ≡ bytes_tx_of (pair ++ initial.completed))
    × (bytes_rx_of (
          sent_of (deliver delivery true pair)
          ++ (settle (deliver delivery true pair) initial).completed)
        ≡ bytes_rx_of (pair ++ initial.completed))
unfolding consolidate_sessions group_sessions merge_groups merge_group walk merge_into start_run
    finalize group_key extract_ip split_host_port sorter within_gap initial new_access_logger
deliver-totals_example = deliver-totals delivery pair initial refl (omega arith)

abbrev tracking : AccessLogger
unfolding track_udp_session
tracking = (track_udp_session "u" 5 (pos 7) (text "c:1") (text "h:1") initial).1

tracking-reached : Reach tracking
unfolding new_access_logger track_udp_session tracking initial
tracking-reached =
    Reach.then (Reach.start (λ p. session "none" "" 0 0 0))
      (Step.track_udp "u" 5 (pos 7) (text "c:1") (text "h:1") refl)

Reach-IsConsistent_example : IsConsistent tracking
Reach-IsConsistent_example = Reach-IsConsistent tracking-reached
