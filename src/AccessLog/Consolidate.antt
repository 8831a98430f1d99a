-- ===== src/AccessLog/Consolidate.antt =====
-- netstack2/access_log.go: `consolidateSessions` and its helpers. `sort.Slice`, which may order
-- sessions with one start time in any way, is a `Sorter`. The groups are visited in the order of
-- the map's list.
pub mod Totals
pub mod Gaps
pub mod Requeued
use mathlib.Core.List.{Permᴰ}
use newt.Prelude.{
  ℕ, ◌+◌, ◌≤◌, Bool, true, false, Option, none, some, List, [], ◌∷◌, ◌++◌, ltb, leb, add64, length,
  if◌then◌else◌, from_option,
}
use newt.Prelude.GoMap.{GoMap, lookup, insert, elem}
use newt.HostPort.{Text, text_eq, split_host_port}
use newt.AccessLog.{
  AccessSession, ConsolidationKey, key_eq, session_gap_threshold, min_connections_to_consolidate,
}

abbrev pub IsAscending : List AccessSession → Type 0
IsAscending [] = Unit
IsAscending (s ∷ l) = elim l [ [] ↦ Unit | t ∷ _ ↦ (s.started_at ≤ t.started_at) × IsAscending l ]

-- What the program relies on of `sort.Slice` by start time.
pub record Sorter : Type 0 where
  pub sort : List AccessSession → List AccessSession
  pub sort-perm : (l : List AccessSession) → Permᴰ (sort l) l
  pub sort-IsAscending : (l : List AccessSession) → IsAscending (sort l)

unfoldable pub extract_ip : Text → Text
extract_ip addr = elim (split_host_port addr) [ none ↦ addr | some (host, _) ↦ host ]

-- a session being merged, and the set of source addresses seen
pub record Run : Type 0 where
  pub cur : AccessSession
  pub ports : List Text

abbrev pub add_port : Text → List Text → List Text
add_port p ps = if elem p ps then ps else p ∷ ps

unfoldable pub start_run : AccessSession → Run
start_run s = record { cur = record s { connection_count = 1 }; ports = s.source_addr ∷ [] }

-- `gapRef`
unfoldable pub gap_ref : AccessSession → ℕ
gap_ref s = from_option s.started_at s.ended_at

unfoldable pub within_gap : AccessSession → AccessSession → Bool
unfolding gap_ref
within_gap cur s = leb s.started_at (gap_ref cur + session_gap_threshold)

-- `if endTime.After(cur.EndedAt)`: any time is after the unset one
abbrev pub later_end : Option ℕ → ℕ → Option ℕ
later_end none e = some e
later_end (some c) e = if ltb c e then some e else some c

unfoldable pub merge_into : Run → AccessSession → Run
unfolding gap_ref
merge_into r s = record {
  cur = record r.cur {
    connection_count = r.cur.connection_count + 1;
    bytes_tx = add64 r.cur.bytes_tx s.bytes_tx;
    bytes_rx = add64 r.cur.bytes_rx s.bytes_rx;
    ended_at = later_end r.cur.ended_at (gap_ref s);
  };
  ports = add_port s.source_addr r.ports;
}

unfoldable pub finalize : Text → Run → AccessSession
finalize ip r = if ltb 1 (length r.ports) then record r.cur { source_addr = ip } else r.cur

-- the loop over the sorted group
unfoldable pub walk : Text → Run → List AccessSession → List AccessSession
walk ip r [] = finalize ip r ∷ []
walk ip r (s ∷ rest) = elim (within_gap r.cur s) [
  | true ↦ walk ip (merge_into r s) rest
  | false ↦ finalize ip r ∷ walk ip (start_run s) rest
]

abbrev pub merge_sorted : Text → List AccessSession → List AccessSession
merge_sorted ip [] = []
merge_sorted ip (s ∷ rest) = walk ip (start_run s) rest

unfoldable pub group_key : AccessSession → ConsolidationKey
unfolding extract_ip
group_key s = record {
  source_ip = extract_ip s.source_addr;
  dest_addr = s.dest_addr;
  protocol = s.protocol;
  resource_id = s.resource_id;
}

unfoldable pub group_sessions :
    List AccessSession
    → GoMap ConsolidationKey (List AccessSession)
    → GoMap ConsolidationKey (List AccessSession)
group_sessions [] g = g
group_sessions (s ∷ rest) g =
    let key = group_key s in
    group_sessions rest (insert key (from_option [] (lookup key g) ++ s ∷ []) g)

unfoldable pub merge_group : Sorter → ConsolidationKey → List AccessSession → List AccessSession
merge_group sorter key group =
    if ltb (length group) min_connections_to_consolidate
    then group
    else merge_sorted key.source_ip (sorter.sort group)

unfoldable pub merge_groups :
    Sorter → GoMap ConsolidationKey (List AccessSession) → List AccessSession
merge_groups sorter [] = []
merge_groups sorter ((key, group) ∷ rest) = merge_group sorter key group ++ merge_groups sorter rest

unfoldable pub consolidate_sessions : Sorter → List AccessSession → List AccessSession
unfolding merge_groups group_sessions
consolidate_sessions sorter sessions =
    if leb (length sessions) 1 then sessions else merge_groups sorter (group_sessions sessions [])
