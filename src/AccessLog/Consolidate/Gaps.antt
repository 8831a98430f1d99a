-- ===== src/AccessLog/Consolidate/Gaps.antt =====
-- netstack2/access_log.go: the sessions that a consolidated group is sent as.
use mathlib.Core.List.Permᴰ.{symm}
use newt.Prelude.{
  ℕ, ◌+◌, ◌<◌, ◌⊎◌, none, some, All, ◌≤◌, ◌≡◌, ◌∙◌, refl, sym, subst, inl, inr, false, List, [],
  ◌∷◌, arith, ltb, length, Bool-cases,
}
use newt.HostPort.{Text}
use newt.AccessLog.{AccessSession, ConsolidationKey, min_connections_to_consolidate}
use newt.AccessLog.Consolidate.{
  Sorter, IsAscending, Run, start_run, gap_ref, within_gap, merge_into, finalize, walk,
  merge_sorted, merge_group,
}
use newt.AccessLog.Consolidate.Totals.{All-perm}

-- the end of a session, or its start while it has none
abbrev pub end_of : AccessSession → ℕ
end_of s = elim s.ended_at [ none ↦ s.started_at | some e ↦ e ]

-- Each session starts more than five seconds after the end of the one before it.
abbrev pub IsSeparated : List AccessSession → Type 0
IsSeparated [] = Unit
IsSeparated (s ∷ l) = elim l [
  | [] ↦ Unit
  | t ∷ _ ↦ (end_of s + 5000000000 < t.started_at) × IsSeparated l
]

-- One of the sessions spans the given one.
abbrev pub IsCovered : List AccessSession → AccessSession → Type 0
IsCovered [] s = ⊥
IsCovered (o ∷ l) s = ((o.started_at ≤ s.started_at) × (end_of s ≤ end_of o)) ⊎ IsCovered l s

-- The session does not end before its start.
abbrev pub IsTimed : AccessSession → Type 0
IsTimed s = s.started_at ≤ end_of s

within_gap-false :
    (s t : AccessSession) → within_gap s t ≡ false → end_of s + 5000000000 < t.started_at
unfolding within_gap gap_ref
within_gap-false s t h = ground arith

-- the first session starts at the given time
abbrev StartsAt : ℕ → List AccessSession → Type 0
StartsAt t [] = ⊥
StartsAt t (s ∷ l) = s.started_at ≡ t

IsSeparated-cons :
    (s t : AccessSession) (l : List AccessSession)
    → StartsAt t.started_at l
    → end_of s + 5000000000 < t.started_at
    → IsSeparated l
    → IsSeparated (s ∷ l)
IsSeparated-cons s t [] h g d = absurd h
IsSeparated-cons s t (u ∷ l) h g d = (omega (arith, h, g), d)

within_gap-finalize :
    (ip : Text) (r : Run) (t : AccessSession) → within_gap (finalize ip r) t ≡ within_gap r.cur t
unfolding within_gap gap_ref finalize
within_gap-finalize ip r t = ground arith

StartsAt-walk :
    (ip : Text) (r : Run) (rest : List AccessSession) → StartsAt r.cur.started_at (walk ip r rest)
unfolding walk finalize merge_into
StartsAt-walk ip r [] = ground arith
StartsAt-walk ip r (s ∷ rest) = elim (Bool-cases (within_gap r.cur s)) [
  | inl e ↦ rw (e, walk) (StartsAt-walk ip (merge_into r s) rest)
  | inr e ↦ rw (e, walk) (ground arith)
]

walk-IsSeparated : (ip : Text) (r : Run) (rest : List AccessSession) → IsSeparated (walk ip r rest)
unfolding walk start_run
walk-IsSeparated ip r [] = tt
walk-IsSeparated ip r (s ∷ rest) = elim (Bool-cases (within_gap r.cur s)) [
  | inl e ↦ rw (e, walk) (walk-IsSeparated ip (merge_into r s) rest)
  | inr e ↦
      rw (e, walk)
        (IsSeparated-cons (finalize ip r) s (walk ip (start_run s) rest)
          (StartsAt-walk ip (start_run s) rest)
          (within_gap-false (finalize ip r) s (within_gap-finalize ip r s ∙ e))
          (walk-IsSeparated ip (start_run s) rest))
]

merge_sorted-IsSeparated : (ip : Text) (l : List AccessSession) → IsSeparated (merge_sorted ip l)
merge_sorted-IsSeparated ip [] = tt
merge_sorted-IsSeparated ip (s ∷ l) = walk-IsSeparated ip (start_run s) l

-- The sessions start in order, none before the given time, and none ends before its start.
abbrev Follows : ℕ → List AccessSession → Type 0
Follows t [] = Unit
Follows t (s ∷ l) = (t ≤ s.started_at) × (s.started_at ≤ end_of s) × Follows s.started_at l

Follows-lower : (t u : ℕ) (l : List AccessSession) → t ≤ u → Follows u l → Follows t l
Follows-lower t u [] h f = tt
Follows-lower t u (s ∷ l) h f = (omega (arith, h, f.0), f.1, f.2)

IsAscending-Follows :
    (s : AccessSession) (l : List AccessSession)
    → IsAscending (s ∷ l)
    → All IsTimed l
    → Follows s.started_at l
IsAscending-Follows s [] h d = tt
IsAscending-Follows s (t ∷ l) h d = (h.0, d.0, IsAscending-Follows t l h.1 d.1)

-- A session within the span of the run is within that of the session it becomes.
IsCovered-run :
    (ip : Text) (r : Run) (rest : List AccessSession) (s : AccessSession)
    → r.cur.started_at ≤ s.started_at
    → end_of s ≤ end_of r.cur
    → Follows r.cur.started_at rest
    → IsCovered (walk ip r rest) s
unfolding walk finalize merge_into gap_ref
IsCovered-run ip r [] s low high f = inl (ground arith)
IsCovered-run ip r (t ∷ rest) s low high f = elim (Bool-cases (within_gap r.cur t)) [
  | inl e ↦
      rw (e, walk)
        (IsCovered-run ip (merge_into r t) rest s low (ground arith)
          (Follows-lower r.cur.started_at t.started_at rest f.0 f.2))
  | inr e ↦ rw (e, walk) (inl (ground arith))
]

All-inr :
    (o : AccessSession) (out l : List AccessSession)
    → All (IsCovered out) l
    → All (IsCovered (o ∷ out)) l
All-inr o out [] h = tt
All-inr o out (s ∷ l) h = (inr h.0, All-inr o out l h.1)

walk-IsCovered :
    (ip : Text) (r : Run) (rest : List AccessSession)
    → Follows r.cur.started_at rest
    → All (IsCovered (walk ip r rest)) rest
unfolding walk merge_into start_run gap_ref
walk-IsCovered ip r [] f = tt
walk-IsCovered ip r (s ∷ rest) f =
    let behind = Follows-lower r.cur.started_at s.started_at rest f.0 f.2 in
    elim (Bool-cases (within_gap r.cur s)) [
      | inl e ↦
          let out : walk ip r (s ∷ rest) ≡ walk ip (merge_into r s) rest = rw (e, walk) refl in
          subst (λ o. All (IsCovered o) (s ∷ rest)) (sym out)
            (
              IsCovered-run ip (merge_into r s) rest s f.0 (ground arith) behind,
              walk-IsCovered ip (merge_into r s) rest behind,
            )
      | inr e ↦
          let out : walk ip r (s ∷ rest) ≡ finalize ip r ∷ walk ip (start_run s) rest =
            rw (e, walk) refl in
          subst (λ o. All (IsCovered o) (s ∷ rest)) (sym out)
            (
              inr (IsCovered-run ip (start_run s) rest s (omega arith) (omega arith) f.2),
              All-inr (finalize ip r) (walk ip (start_run s) rest) rest
                  (walk-IsCovered ip (start_run s) rest f.2),
            )
    ]

merge_sorted-IsCovered :
    (ip : Text) (l : List AccessSession)
    → IsAscending l
    → All IsTimed l
    → All (IsCovered (merge_sorted ip l)) l
unfolding start_run
merge_sorted-IsCovered ip [] h d = tt
merge_sorted-IsCovered ip (s ∷ l) h d =
    let f = IsAscending-Follows s l h d.1 in
    (
      IsCovered-run ip (start_run s) l s (omega arith) (omega arith) f,
      walk-IsCovered ip (start_run s) l f,
    )

-- A group of at least two sessions, none of which ends before its start, is sent as sessions each of
-- which starts more than five seconds after the end of the one before it, and each session of the
-- group lies within the span of one of them, from its start to its end.
pub merge_group-IsSeparated :
    (sorter : Sorter) (key : ConsolidationKey) (group : List AccessSession)
    → 2 ≤ length group
    → All IsTimed group
    → IsSeparated (merge_group sorter key group)
      × All (IsCovered (merge_group sorter key group)) group
unfolding merge_group
merge_group-IsSeparated sorter key group h timed =
    let sorted = sorter.sort group in
    let ip = key.source_ip in
    elim (Bool-cases (ltb (length group) min_connections_to_consolidate)) [
      | inl e ↦ absurd (ground arith)
      | inr e ↦
          rw (e, merge_group)
            (
              merge_sorted-IsSeparated ip sorted,
              All-perm (IsCovered (merge_sorted ip sorted)) (symm (sorter.sort-perm group)) (
                  merge_sorted-IsCovered ip sorted (sorter.sort-IsAscending group)
                    (All-perm IsTimed (sorter.sort-perm group) timed)),
            )
    ]
