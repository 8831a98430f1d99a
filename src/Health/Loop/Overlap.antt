-- ===== src/Health/Loop/Overlap.antt =====
-- healthcheck/healthcheck.go: the goroutines of one target when it is disabled and enabled again.
-- A goroutine reads `target.ctx` when it enters its `select`, and not during a check.
use newt.Prelude.{
  ℕ, ◌+◌, ◌≡◌, refl, ◌⊎◌, inl, inr, Bool, true, false, List, [], ◌∷◌, ◌++◌, arith, nat_eq, All,
  All-append,
}
use newt.Prelude.GoMap.{elem}

-- `waiting c`: in the `select`, on the channel of context `c`
pub data Phase : Type 0 where
  checking : Phase
  waiting : ℕ → Phase

pub record Shared : Type 0 where
  pub enabled : Bool
  pub ctx : ℕ
  pub next_ctx : ℕ
  pub cancelled : List ℕ
  pub loops : List Phase

abbrev pub disabled : Shared → Shared
disabled s = record s { enabled = false; cancelled = s.ctx ∷ s.cancelled }

abbrev pub enabled_again : Shared → Shared
enabled_again s = record s {
  enabled = true;
  cancelled = s.ctx ∷ s.cancelled;
  ctx = s.next_ctx;
  next_ctx = s.next_ctx + 1;
  loops = s.loops ++ checking ∷ [];
}

-- One step of the target's goroutines or of a caller, with the loops around the one that moves.
pub data Step (s : Shared) : Shared → Type 0 where
  disable : s.enabled ≡ true → Step s (disabled s)
  enable : s.enabled ≡ false → Step s (enabled_again s)
  check_done :
      (xs ys : List Phase)
      → s.loops ≡ xs ++ checking ∷ ys
      → Step s (record s { loops = xs ++ waiting s.ctx ∷ ys })
  timer_fired :
      (xs ys : List Phase) (c : ℕ)
      → s.loops ≡ xs ++ waiting c ∷ ys
      → Step s (record s { loops = xs ++ checking ∷ ys })
  returned :
      (xs ys : List Phase) (c : ℕ)
      → s.loops ≡ xs ++ waiting c ∷ ys
      → elem c s.cancelled ≡ true
      → Step s (record s { loops = xs ++ ys })

pub data Reach (s : Shared) : Shared → Type 0 where
  here : Reach s s
  next : {t u : Shared} → Reach s t → Step t u → Reach s u

-- A goroutine waits on the current context or on a cancelled one.
abbrev pub WaitsRight : Shared → Phase → Type 0
WaitsRight s checking = Unit
WaitsRight s (waiting c) = (c ≡ s.ctx) ⊎ (elem c s.cancelled ≡ true)

-- If a check is in flight while the target is disabled and enabled again, the old goroutine can
-- end up beside the new one on the fresh context, which nothing has cancelled.
pub overlap :
    (s : Shared)
    → s.enabled ≡ true
    → s.loops ≡ checking ∷ []
    → elem s.next_ctx (s.ctx ∷ s.ctx ∷ s.cancelled) ≡ false
    → (t : Shared) × Reach s t
      × (t.loops ≡ waiting t.ctx ∷ waiting t.ctx ∷ [])
      × (t.enabled ≡ true)
      × (elem t.ctx t.cancelled ≡ false)
overlap s on one fresh =
    let d = disabled s in
    let e = enabled_again d in
    let f = record e { loops = waiting e.ctx ∷ checking ∷ [] } in
    let g = record f { loops = waiting f.ctx ∷ waiting f.ctx ∷ [] } in
    (
      g,
      next
          (next (next (next here (disable on)) (enable refl))
            (check_done [] (checking ∷ []) (ground arith)))
          (check_done (waiting f.ctx ∷ []) [] refl),
      refl,
      refl,
      fresh,
    )

All-split_left :
    (P : Phase → Type 0) (xs : List Phase) (y : Phase) (ys : List Phase)
    → All P (xs ++ y ∷ ys)
    → All P xs × P y × All P ys
All-split_left P [] y ys h = (tt, h.0, h.1)
All-split_left P (x ∷ xs) y ys h = let (a, b, c) = All-split_left P xs y ys h.1 in ((h.0, a), b, c)

All-mono :
    (P Q : Phase → Type 0) → ((p : Phase) → P p → Q p) → (xs : List Phase) → All P xs → All Q xs
All-mono P Q f [] h = tt
All-mono P Q f (x ∷ xs) h = (f x h.0, All-mono P Q f xs h.1)

cancel-WaitsRight :
    (s t : Shared)
    → t.cancelled ≡ s.ctx ∷ s.cancelled
    → (p : Phase) → WaitsRight s p
    → WaitsRight t p
cancel-WaitsRight s t e checking h = tt
cancel-WaitsRight s t e (waiting c) (inl at) = inr (ground arith)
cancel-WaitsRight s t e (waiting c) (inr old) = inr (ground arith)

Step-WaitsRight :
    {s t : Shared} → Step s t → All (WaitsRight s) s.loops → All (WaitsRight t) t.loops
Step-WaitsRight {s} (disable on) h =
    All-mono (WaitsRight s) (WaitsRight (disabled s)) (cancel-WaitsRight s (disabled s) refl)
      s.loops h
Step-WaitsRight {s} (enable off) h =
    let t = enabled_again s in
    All-append (WaitsRight t) s.loops (checking ∷ [])
      (All-mono (WaitsRight s) (WaitsRight t) (cancel-WaitsRight s t refl) s.loops h) (tt, tt)
Step-WaitsRight {s} (check_done xs ys e) h =
    let (a, b, c) = All-split_left (WaitsRight s) xs checking ys (rw e at h) in
    All-append (WaitsRight s) xs (waiting s.ctx ∷ ys) a (inl refl, c)
Step-WaitsRight {s} (timer_fired xs ys c e) h =
    let (a, b, d) = All-split_left (WaitsRight s) xs (waiting c) ys (rw e at h) in
    All-append (WaitsRight s) xs (checking ∷ ys) a (tt, d)
Step-WaitsRight {s} (returned xs ys c e k) h =
    let (a, b, d) = All-split_left (WaitsRight s) xs (waiting c) ys (rw e at h) in
    All-append (WaitsRight s) xs ys a d

-- If every waiting goroutine of a target waits on the target's context or on a cancelled one, that
-- still holds after any steps.
pub Reach-WaitsRight :
    {s t : Shared} → Reach s t → All (WaitsRight s) s.loops → All (WaitsRight t) t.loops
Reach-WaitsRight here h = h
Reach-WaitsRight (next r st) h = Step-WaitsRight st (Reach-WaitsRight r h)
