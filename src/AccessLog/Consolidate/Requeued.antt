-- ===== src/AccessLog/Consolidate/Requeued.antt =====
-- netstack2/access_log.go: sessions that were consolidated before, as a batch that could not be sent
-- is queued again.
use newt.Prelude.{
  ℕ, suc, ◌+◌, ◌≤◌, ◌≡◌, refl, ◌∙◌, ap, inl, inr, List, [], ◌∷◌, arith, ltb, length, Bool-cases,
}
use mathlib.Core.List.{Permᴰ}
use newt.HostPort.{Text}
use newt.AccessLog.{AccessSession, ConsolidationKey, min_connections_to_consolidate}
use newt.AccessLog.Consolidate.{
  Sorter, Run, start_run, within_gap, merge_into, finalize, walk, merge_sorted, merge_group,
}

abbrev pub connections_sum : List AccessSession → ℕ
connections_sum [] = 0
connections_sum (s ∷ l) = s.connection_count + connections_sum l

connection_count-finalize :
    (ip : Text) (r : Run) → (finalize ip r).connection_count ≡ r.cur.connection_count
unfolding finalize
connection_count-finalize ip r = ground arith

connections_sum-walk :
    (ip : Text) (r : Run) (rest : List AccessSession)
    → connections_sum (walk ip r rest) ≡ r.cur.connection_count + length rest
unfolding walk start_run merge_into
connections_sum-walk ip r [] = omega (arith, connection_count-finalize ip r)
connections_sum-walk ip r (s ∷ rest) = elim (Bool-cases (within_gap r.cur s)) [
  | inl e ↦ rw (e, walk) (omega (arith, connections_sum-walk ip (merge_into r s) rest))
  | inr e ↦
      rw (e, walk)
        (omega (arith, connection_count-finalize ip r, connections_sum-walk ip (start_run s) rest))
]

connections_sum-merge_sorted :
    (ip : Text) (l : List AccessSession) → connections_sum (merge_sorted ip l) ≡ length l
unfolding start_run
connections_sum-merge_sorted ip [] = refl
connections_sum-merge_sorted ip (s ∷ l) = omega (arith, connections_sum-walk ip (start_run s) l)

length-perm : {xs ys : List AccessSession} → Permᴰ xs ys → length xs ≡ length ys
length-perm Permᴰ.nil = refl
length-perm (Permᴰ.cons e p) = ap suc (length-perm p)
length-perm (Permᴰ.swap e e') = refl
length-perm (Permᴰ.trans p q) = length-perm p ∙ length-perm q

-- The connection counts of a consolidated group of at least two sessions add up to the number of
-- these sessions, whatever the connection counts that they had before.
pub connections_sum-merge_group :
    (sorter : Sorter) (key : ConsolidationKey) (group : List AccessSession)
    → 2 ≤ length group
    → connections_sum (merge_group sorter key group) ≡ length group
unfolding merge_group
connections_sum-merge_group sorter key group h =
    elim (Bool-cases (ltb (length group) min_connections_to_consolidate)) [
      | inl e ↦ absurd (ground arith)
      | inr e ↦
          rw (e, merge_group)
            (connections_sum-merge_sorted key.source_ip (sorter.sort group)
              ∙ length-perm (sorter.sort-perm group))
    ]
