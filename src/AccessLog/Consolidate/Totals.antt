-- ===== src/AccessLog/Consolidate/Totals.antt =====
-- netstack2/access_log.go: what consolidation preserves. A quantity is summed onto a start value by
-- an associative and commutative operation.
use mathlib.Core.List.{Permᴰ}
use newt.Prelude.{
  ℕ, ◌+◌, ◌≤◌, ◌<◌, ◌≡◌, refl, sym, ◌∙◌, ap, subst, inl, inr, true, false, List, [], ◌∷◌, ◌++◌,
  arith, ltb, leb, add64, add64_assoc, add64_comm, length, if◌then◌else◌, from_option, Bool-cases,
  All, All-split, All-append, ◌==◌,
}
use newt.Prelude.GoMap.{GoMap, lookup, insert}
use newt.AccessLog.{AccessSession, ConsolidationKey, key_eq, min_connections_to_consolidate}
use newt.AccessLog.Consolidate.{
  Sorter, Run, start_run, within_gap, merge_into, finalize, walk, merge_sorted, group_key,
  group_sessions, merge_group, merge_groups, consolidate_sessions,
}
use newt.HostPort.{Text}

-- The quantity `f` of each session, summed onto `t`.
abbrev pub total : (ℕ → ℕ → ℕ) → (AccessSession → ℕ) → List AccessSession → ℕ → ℕ
total op f [] t = t
total op f (s ∷ l) t = op (f s) (total op f l t)

abbrev pub concat : GoMap ConsolidationKey (List AccessSession) → List AccessSession
concat [] = []
concat ((k, g) ∷ rest) = g ++ concat rest

-- A quantity that merging adds up, for sessions that satisfy `P`.
pub record IsAdditive (op : ℕ → ℕ → ℕ) (P : AccessSession → Type 0) (f : AccessSession → ℕ)
    : Type 0 where
  pub op_assoc : (a b c : ℕ) → op (op a b) c ≡ op a (op b c)
  pub op_comm : (a b : ℕ) → op a b ≡ op b a
  pub start : (s : AccessSession) → P s → f (start_run s).cur ≡ f s
  pub merge :
      (r : Run) (s : AccessSession)
      → 0 < r.cur.connection_count
      → P s
      → f (merge_into r s).cur ≡ op (f r.cur) (f s)
  pub final : (ip : Text) (r : Run) → f (finalize ip r) ≡ f r.cur

pub All-perm :
    (P : AccessSession → Type 0) {xs ys : List AccessSession} → Permᴰ xs ys → All P ys → All P xs
All-perm P Permᴰ.nil h = tt
All-perm P (Permᴰ.cons e p) h = (subst P (sym e) h.0, All-perm P p h.1)
All-perm P (Permᴰ.swap e e') h = (subst P (sym e) h.1.0, (subst P (sym e') h.0, h.1.1))
All-perm P (Permᴰ.trans p q) h = All-perm P p (All-perm P q h)

module _ (op : ℕ → ℕ → ℕ) (P : AccessSession → Type 0) (f : AccessSession → ℕ)
    (x : IsAdditive op P f) where
  pub total-append :
      (xs ys : List AccessSession) (t : ℕ)
      → total op f (xs ++ ys) t ≡ total op f xs (total op f ys t)
  total-append [] ys t = refl
  total-append (s ∷ xs) ys t = ap (op (f s)) (total-append xs ys t)

  op_swap : (a b c : ℕ) → op a (op b c) ≡ op b (op a c)
  op_swap a b c = sym (x.op_assoc a b c) ∙ ap (λ y. op y c) (x.op_comm a b) ∙ x.op_assoc b a c

  total_op :
      (a : ℕ) (xs : List AccessSession) (t : ℕ) → total op f xs (op a t) ≡ op a (total op f xs t)
  total_op a [] t = refl
  total_op a (s ∷ xs) t = ap (op (f s)) (total_op a xs t) ∙ op_swap (f s) a (total op f xs t)

  total-perm :
      {xs ys : List AccessSession} → Permᴰ xs ys → (t : ℕ) → total op f xs t ≡ total op f ys t
  total-perm Permᴰ.nil t = refl
  total-perm (Permᴰ.cons e p) t = cc (e, total-perm p t)
  total-perm (Permᴰ.swap {a' = c} {b' = d} {l = l} e e') t =
      cc (e, e', op_swap (f d) (f c) (total op f l t))
  total-perm (Permᴰ.trans p q) t = total-perm p t ∙ total-perm q t

  cur_pos : (r : Run) (s : AccessSession) → 0 < (merge_into r s).cur.connection_count
  unfolding merge_into
  cur_pos r s = omega arith

  start_pos : (s : AccessSession) → 0 < (start_run s).cur.connection_count
  unfolding start_run
  start_pos s = omega arith

  total-walk :
      (ip : Text) (r : Run) (rest : List AccessSession) (t : ℕ)
      → 0 < r.cur.connection_count
      → All P rest
      → total op f (walk ip r rest) t ≡ op (f r.cur) (total op f rest t)
  unfolding walk
  total-walk ip r [] t pos h = ap (λ y. op y t) (x.final ip r)
  total-walk ip r (s ∷ rest) t pos h = elim (Bool-cases (within_gap r.cur s)) [
    | inl e ↦
        rw (e, walk)
          (total-walk ip (merge_into r s) rest t (cur_pos r s) h.1
            ∙ ap (λ y. op y (total op f rest t)) (x.merge r s pos h.0)
            ∙ x.op_assoc (f r.cur) (f s) (total op f rest t))
    | inr e ↦
        rw (e, walk)
          (cc (x.final ip r, total-walk ip (start_run s) rest t (start_pos s) h.1, x.start s h.0))
  ]

  total-merge_sorted :
      (ip : Text) (l : List AccessSession) (t : ℕ)
      → All P l
      → total op f (merge_sorted ip l) t ≡ total op f l t
  total-merge_sorted ip [] t h = refl
  total-merge_sorted ip (s ∷ rest) t h =
      total-walk ip (start_run s) rest t (start_pos s) h.1
      ∙ ap (λ y. op y (total op f rest t)) (x.start s h.0)

  total-merge_group :
      (sorter : Sorter) (key : ConsolidationKey) (group : List AccessSession) (t : ℕ)
      → All P group
      → total op f (merge_group sorter key group) t ≡ total op f group t
  unfolding merge_group
  total-merge_group sorter key group t h =
      elim (Bool-cases (ltb (length group) min_connections_to_consolidate)) [
        | inl e ↦ rw (e, merge_group) refl
        | inr e ↦
            rw (e, merge_group)
              (total-merge_sorted key.source_ip (sorter.sort group) t
                  (All-perm P (sorter.sort-perm group) h)
                ∙ total-perm (sorter.sort-perm group) t)
      ]

  total-merge_groups :
      (sorter : Sorter) (g : GoMap ConsolidationKey (List AccessSession)) (t : ℕ)
      → All P (concat g)
      → total op f (merge_groups sorter g) t ≡ total op f (concat g) t
  unfolding merge_groups
  total-merge_groups sorter [] t h = refl
  total-merge_groups sorter ((key, group) ∷ rest) t h =
      let h' = All-split P group (concat rest) h in
      total-append (merge_group sorter key group) (merge_groups sorter rest) t
      ∙ total-merge_group sorter key group (total op f (merge_groups sorter rest) t) h'.0
      ∙ ap (total op f group) (total-merge_groups sorter rest t h'.1)
      ∙ sym (total-append group (concat rest) t)

  hit :
      (key k : ConsolidationKey) (old : List AccessSession)
      (g : GoMap ConsolidationKey (List AccessSession))
      → (k == key) ≡ true
      → from_option [] (lookup key ((k, old) ∷ g)) ≡ old
  unfolding lookup
  hit key k old g e = rw (e, lookup) refl

  miss :
      (key k : ConsolidationKey) (old : List AccessSession)
      (g : GoMap ConsolidationKey (List AccessSession))
      → (k == key) ≡ false
      → from_option [] (lookup key ((k, old) ∷ g)) ≡ from_option [] (lookup key g)
  unfolding lookup
  miss key k old g e = rw (e, lookup) refl

  total-insert :
      (key : ConsolidationKey) (s : AccessSession) (g : GoMap ConsolidationKey (List AccessSession))
      (v : List AccessSession) (t : ℕ)
      → from_option [] (lookup key g) ≡ v
      → total op f (concat (insert key (v ++ s ∷ []) g)) t ≡ op (f s) (total op f (concat g) t)
  unfolding insert lookup
  total-insert key s [] v t h = rw (sym h) refl
  total-insert key s ((k, old) ∷ g) v t h = elim (Bool-cases (k == key)) [
    | inl e ↦
        rw (e, insert)
          (total-append (v ++ s ∷ []) (concat g) t
            ∙ total-append v (s ∷ []) (total op f (concat g) t)
            ∙ total_op (f s) v (total op f (concat g) t)
            ∙ ap (λ w. op (f s) (total op f w (total op f (concat g) t)))
                (sym (sym (hit key k old g e) ∙ h))
            ∙ ap (op (f s)) (sym (total-append old (concat g) t)))
    | inr e ↦
        rw (e, insert)
          (total-append old (concat (insert key (v ++ s ∷ []) g)) t
            ∙ ap (total op f old) (total-insert key s g v t (sym (miss key k old g e) ∙ h))
            ∙ total_op (f s) old (total op f (concat g) t)
            ∙ ap (op (f s)) (sym (total-append old (concat g) t)))
  ]

  total-group_sessions :
      (l : List AccessSession) (g : GoMap ConsolidationKey (List AccessSession)) (t : ℕ)
      → total op f (concat (group_sessions l g)) t ≡ total op f l (total op f (concat g) t)
  unfolding group_sessions
  total-group_sessions [] g t = refl
  total-group_sessions (s ∷ l) g t =
      let key = group_key s in
      total-group_sessions l (insert key (from_option [] (lookup key g) ++ s ∷ []) g) t
      ∙ ap (total op f l) (total-insert key s g (from_option [] (lookup key g)) t refl)
      ∙ total_op (f s) l (total op f (concat g) t)

  All-lookup :
      (key : ConsolidationKey) (g : GoMap ConsolidationKey (List AccessSession))
      → All P (concat g)
      → All P (from_option [] (lookup key g))
  unfolding lookup
  All-lookup key [] h = tt
  All-lookup key ((k, old) ∷ g) h =
      let h' = All-split P old (concat g) h in
      elim (Bool-cases (k == key)) [
        | inl e ↦ rw (e, lookup) h'.0
        | inr e ↦ rw (e, lookup) (All-lookup key g h'.1)
      ]

  All-insert :
      (key : ConsolidationKey) (v : List AccessSession)
      (g : GoMap ConsolidationKey (List AccessSession))
      → All P v
      → All P (concat g)
      → All P (concat (insert key v g))
  unfolding insert
  All-insert key v [] hv hg = All-append P v [] hv tt
  All-insert key v ((k, old) ∷ g) hv hg =
      let h = All-split P old (concat g) hg in
      elim (Bool-cases (k == key)) [
        | inl e ↦ rw (e, insert) (All-append P v (concat g) hv h.1)
        | inr e ↦
            rw (e, insert)
              (All-append P old (concat (insert key v g)) h.0 (All-insert key v g hv h.1))
      ]

  All-group_sessions :
      (l : List AccessSession) (g : GoMap ConsolidationKey (List AccessSession))
      → All P l
      → All P (concat g)
      → All P (concat (group_sessions l g))
  unfolding group_sessions
  All-group_sessions [] g hl hg = hg
  All-group_sessions (s ∷ l) g hl hg =
      let key = group_key s in
      All-group_sessions l (insert key (from_option [] (lookup key g) ++ s ∷ []) g) hl.1 (
        All-insert key (from_option [] (lookup key g) ++ s ∷ []) g
          (All-append P (from_option [] (lookup key g)) (s ∷ []) (All-lookup key g hg) (hl.0, tt))
          hg)

  -- A quantity that merging adds up has the same total before and after the sessions of a batch,
  -- each of which satisfies `P`, are consolidated, whatever the order the sorter gives to sessions
  -- with one start time.
  pub total-consolidate_sessions :
      (sorter : Sorter) (l : List AccessSession) (t : ℕ)
      → All P l
      → total op f (consolidate_sessions sorter l) t ≡ total op f l t
  unfolding consolidate_sessions
  total-consolidate_sessions sorter l t h = elim (Bool-cases (leb (length l) 1)) [
    | inl e ↦ rw (e, consolidate_sessions) refl
    | inr e ↦
        rw (e, consolidate_sessions)
          (total-merge_groups sorter (group_sessions l []) t (All-group_sessions l [] h tt)
            ∙ total-group_sessions l [] t)
  ]

abbrev pub Anything : AccessSession → Type 0
Anything s = Unit

pub tx-IsAdditive : IsAdditive add64 Anything (λ s. s.bytes_tx)
unfolding start_run merge_into finalize
tx-IsAdditive = record {
  op_assoc = add64_assoc;
  op_comm = add64_comm;
  start = λ s h. refl;
  merge = λ r s pos h. refl;
  final = λ ip r. ground arith;
}

pub rx-IsAdditive : IsAdditive add64 Anything (λ s. s.bytes_rx)
unfolding start_run merge_into finalize
rx-IsAdditive = record {
  op_assoc = add64_assoc;
  op_comm = add64_comm;
  start = λ s h. refl;
  merge = λ r s pos h. refl;
  final = λ ip r. ground arith;
}

-- the connections a session stands for: `connectionCount,omitempty`, where an absent count is one
abbrev pub connections : AccessSession → ℕ
connections s = if leb s.connection_count 1 then 1 else s.connection_count

abbrev pub IsFresh : AccessSession → Type 0
IsFresh s = s.connection_count ≤ 1

connections-IsAdditive : IsAdditive (◌+◌) IsFresh connections
unfolding start_run merge_into finalize
connections-IsAdditive = record {
  op_assoc = λ a b c. omega arith;
  op_comm = λ a b. omega arith;
  start = λ s h. ground arith;
  merge = λ r s pos h. ground arith;
  final = λ ip r. ground arith;
}

pub All-Anything : (l : List AccessSession) → All Anything l
All-Anything [] = tt
All-Anything (s ∷ l) = (tt, All-Anything l)

abbrev pub connections_of : List AccessSession → ℕ
connections_of l = total (◌+◌) connections l 0

abbrev pub bytes_tx_of : List AccessSession → ℕ
bytes_tx_of l = total add64 (λ s. s.bytes_tx) l 0

abbrev pub bytes_rx_of : List AccessSession → ℕ
bytes_rx_of l = total add64 (λ s. s.bytes_rx) l 0

-- Consolidating a batch of sessions, whatever the order the sorter gives to sessions with one start
-- time, changes neither the total of the bytes sent nor that of the bytes received, both modulo
-- 2^64; and where each session of the batch stands for a single connection, the number of
-- connections stays the same too.
pub consolidate_sessions-totals :
    (sorter : Sorter) (l : List AccessSession)
    → (bytes_tx_of (consolidate_sessions sorter l) ≡ bytes_tx_of l)
      × (bytes_rx_of (consolidate_sessions sorter l) ≡ bytes_rx_of l)
      × (All IsFresh l → connections_of (consolidate_sessions sorter l) ≡ connections_of l)
consolidate_sessions-totals sorter l = (
  total-consolidate_sessions add64 Anything (λ s. s.bytes_tx) tx-IsAdditive sorter l 0
      (All-Anything l),
  total-consolidate_sessions add64 Anything (λ s. s.bytes_rx) rx-IsAdditive sorter l 0
      (All-Anything l),
  total-consolidate_sessions (◌+◌) IsFresh connections connections-IsAdditive sorter l 0,
)
