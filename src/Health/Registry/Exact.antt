-- ===== src/Health/Registry/Exact.antt =====
-- healthcheck/healthcheck.go: the invariant that ties targets, contexts and monitoring goroutines
-- together, and that it survives the replacement of one target. A goroutine counts as running until
-- its context is cancelled.
use newt.Prelude.{
  ℕ, ◌≤◌, ◌<◌, ◌≡◌, ◌≢◌, ◌⊎◌, inl, inr, Bool, true, false, ◌&&◌, Option, none, some, List, ◌∷◌,
  arith, ℤ, ◌==◌, nat_eq, int_eq, int_beq_iff, if◌then◌else◌, Bool-cases, Option-cases, sym, ◌∙◌,
  subst,
}
use newt.Prelude.GoMap.{lookup, elem, Distinct}
use newt.Health.{Target}
use newt.Health.Registry.{Monitor, is_running}

-- Exactly the enabled targets have a running goroutine, each its own: targets stand under their
-- ids, contexts are below the next fresh one, no two targets share one, an enabled target's
-- goroutine runs, and a running goroutine is that of an enabled target.
pub record IsExact (m : Monitor) : Type 0 where
  pub distinct : Distinct m.targets
  pub keyed : (id : ℤ) (t : Target) → lookup id m.targets ≡ some t → t.config.id ≡ id
  pub below : (id : ℤ) (t : Target) → lookup id m.targets ≡ some t → t.ctx < m.next_ctx
  pub started_below : (c : ℕ) → elem c m.started ≡ true → c < m.next_ctx
  pub cancelled_below : (c : ℕ) → elem c m.cancelled ≡ true → c < m.next_ctx
  pub apart :
      (i j : ℤ) (s t : Target)
      → lookup i m.targets ≡ some s
      → lookup j m.targets ≡ some t
      → s.ctx ≡ t.ctx
      → i ≡ j
  pub watched :
      (id : ℤ) (t : Target)
      → lookup id m.targets ≡ some t
      → t.config.enabled ≡ true
      → is_running m t.ctx ≡ true
  pub owned :
      (c : ℕ)
      → is_running m c ≡ true
      → (id : ℤ) × (t : Target) × (lookup id m.targets ≡ some t)
        × (t.ctx ≡ c)
        × (t.config.enabled ≡ true)

-- The contexts after the target under one key was cancelled.
abbrev pub cancelled_with : Option Target → List ℕ → List ℕ
cancelled_with none cs = cs
cancelled_with (some t) cs = t.ctx ∷ cs

-- What a replaced target looks like: fresh, or the old one disabled.
abbrev pub IsReplacement : ℤ → Bool → Monitor → ℕ → Option Target → Type 0
IsReplacement k s m next none = s ≡ false
IsReplacement k s m next (some t) =
    (t.config.id ≡ k)
    × (t.config.enabled ≡ s)
    × (t.ctx < next)
    × ((t.ctx ≡ m.next_ctx)
        ⊎ ((s ≡ false) × (u : Target) × (lookup k m.targets ≡ some u) × (t.ctx ≡ u.ctx)))

-- One operation on the target under `k`: the old one is cancelled, the new one is `n`, and a
-- goroutine is started on the fresh context exactly when `s` holds.
pub record Replaces (k : ℤ) (s : Bool) (n : Option Target) (m m' : Monitor) : Type 0 where
  pub found : (j : ℤ) → lookup j m'.targets ≡ (if k == j then n else lookup j m.targets)
  pub cancelled : m'.cancelled ≡ cancelled_with (lookup k m.targets) m.cancelled
  pub started : m'.started ≡ (if s then m.next_ctx ∷ m.started else m.started)
  pub grows : m.next_ctx ≤ m'.next_ctx
  pub bumped : s ≡ true → m.next_ctx < m'.next_ctx
  pub unique : Distinct m.targets → Distinct m'.targets
  pub shape : IsReplacement k s m m'.next_ctx n

module _ (k : ℤ) (s : Bool) (n : Option Target) (m m' : Monitor) (r : Replaces k s n m m')
    (x : IsExact m) where
  -- A target of the new map is the replacement, or an old one under another key.
  found_cases :
      (j : ℤ) (t : Target)
      → lookup j m'.targets ≡ some t
      → ((k ≡ j) × (n ≡ some t)) ⊎ ((k ≢ j) × (lookup j m.targets ≡ some t))
  found_cases j t h = elim (Bool-cases (k == j)) [
    | inl e ↦ inl (ground (arith, int_beq_iff k j, r.found j))
    | inr e ↦ inr (ground (arith, int_beq_iff k j, r.found j))
  ]

  shape_of : (t : Target) → n ≡ some t → IsReplacement k s m m'.next_ctx (some t)
  shape_of t e = subst (IsReplacement k s m m'.next_ctx) e r.shape

  replaced_keyed : (id : ℤ) (t : Target) → lookup id m'.targets ≡ some t → t.config.id ≡ id
  replaced_keyed id t h = elim (found_cases id t h) [
    | inl (e, p) ↦ (shape_of t p).0 ∙ e
    | inr (e, p) ↦ x.keyed id t p
  ]

  replaced_below : (id : ℤ) (t : Target) → lookup id m'.targets ≡ some t → t.ctx < m'.next_ctx
  replaced_below id t h = elim (found_cases id t h) [
    | inl (e, p) ↦ (shape_of t p).2
    | inr (e, p) ↦ omega (arith, x.below id t p, r.grows)
  ]

  replaced_started : (c : ℕ) → elem c m'.started ≡ true → c < m'.next_ctx
  replaced_started c h = elim (Bool-cases s) [
    | inl e ↦ ground (arith, r.started, r.bumped, x.started_below c)
    | inr e ↦ ground (arith, r.started, r.grows, x.started_below c)
  ]

  replaced_cancelled : (c : ℕ) → elem c m'.cancelled ≡ true → c < m'.next_ctx
  replaced_cancelled c h = elim (Option-cases (lookup k m.targets)) [
    | inl e ↦ ground (arith, r.cancelled, r.grows, x.cancelled_below c)
    | inr (u, e) ↦ ground (arith, r.cancelled, r.grows, x.cancelled_below c, x.below k u)
  ]

  -- The replacement shares its context with no target under another key.
  replacement_apart :
      (j : ℤ) (t u : Target) → n ≡ some t → k ≢ j → lookup j m.targets ≡ some u → t.ctx ≢ u.ctx
  replacement_apart j t u e ne h p = elim ((shape_of t e).3) [
    | inl fresh ↦ absurd (omega (arith, x.below j u h))
    | inr (_, old, at, same) ↦ absurd (ne (x.apart k j old u at h (sym same ∙ p)))
  ]

  replaced_apart :
      (i j : ℤ) (t u : Target)
      → lookup i m'.targets ≡ some t
      → lookup j m'.targets ≡ some u
      → t.ctx ≡ u.ctx
      → i ≡ j
  replaced_apart i j t u hi hj e = elim (found_cases i t hi) [
    | inl (p, a) ↦ elim (found_cases j u hj) [
      | inl (q, b) ↦ sym p ∙ q
      | inr (q, b) ↦ absurd (replacement_apart j t u a q b e)
    ]
    | inr (p, a) ↦ elim (found_cases j u hj) [
      | inl (q, b) ↦ absurd (replacement_apart i u t b p a (sym e))
      | inr (q, b) ↦ x.apart i j t u a b e
    ]
  ]

  -- A goroutine that ran on another context than the cancelled one still runs.
  still_running :
      (c : ℕ)
      → is_running m c ≡ true
      → ((u : Target) → lookup k m.targets ≡ some u → u.ctx ≢ c)
      → is_running m' c ≡ true
  unfolding is_running
  still_running c h ne = elim (Option-cases (lookup k m.targets)) [
    | inl e ↦ ground (arith, r.cancelled, r.started, x.started_below c)
    | inr (u, e) ↦ ground (arith, r.cancelled, r.started, ne u e, x.started_below c)
  ]

  fresh_running : s ≡ true → is_running m' m.next_ctx ≡ true
  unfolding is_running
  fresh_running e = elim (Option-cases (lookup k m.targets)) [
    | inl a ↦ ground (arith, r.cancelled, r.started, x.cancelled_below m.next_ctx)
    | inr (u, a) ↦ ground (arith, r.cancelled, r.started, x.cancelled_below m.next_ctx, x.below k u)
  ]

  replaced_watched :
      (id : ℤ) (t : Target)
      → lookup id m'.targets ≡ some t
      → t.config.enabled ≡ true
      → is_running m' t.ctx ≡ true
  replaced_watched id t h on = elim (found_cases id t h) [
    | inl (e, p) ↦ elim ((shape_of t p).3) [
      | inl fresh ↦ rw fresh (fresh_running (sym (shape_of t p).1 ∙ on))
      | inr (off, _, _, _) ↦ cc ((shape_of t p).1)
    ]
    | inr (e, p) ↦ still_running t.ctx (x.watched id t p on) λ u a q. e (x.apart k id u t a p q)
  ]

  -- What runs afterwards ran before on a context that was not cancelled, or is the fresh one.
  ran_before :
      (c : ℕ)
      → is_running m' c ≡ true
      → ((s ≡ true) × (c ≡ m.next_ctx))
        ⊎ ((is_running m c ≡ true) × ((u : Target) → lookup k m.targets ≡ some u → u.ctx ≢ c))
  unfolding is_running
  ran_before c h = elim (Option-cases (lookup k m.targets)) [
    | inl e ↦ elim (Bool-cases (s && (m.next_ctx == c))) [
      | inl new ↦ inl (ground arith)
      | inr old ↦ inr (ground (arith, r.cancelled, r.started, e), λ u q. cc)
    ]
    | inr (v, e) ↦ elim (Bool-cases (s && (m.next_ctx == c))) [
      | inl new ↦ inl (ground arith)
      | inr old ↦ inr (
        ground (arith, r.cancelled, r.started, e),
        λ u q p. ground (arith, r.cancelled, r.started, e),
      )
    ]
  ]

  replacement_owned :
      s ≡ true → (t : Target) × (n ≡ some t) × (t.ctx ≡ m.next_ctx) × (t.config.enabled ≡ true)
  replacement_owned on = elim (Option-cases n) [
    | inl e ↦ cc (on, subst (IsReplacement k s m m'.next_ctx) e r.shape)
    | inr (t, e) ↦ elim ((shape_of t e).3) [
      | inl fresh ↦ (t, e, fresh, (shape_of t e).1 ∙ on)
      | inr (off, _, _, _) ↦ cc (on, off)
    ]
  ]

  replaced_owned :
      (c : ℕ)
      → is_running m' c ≡ true
      → (id : ℤ) × (t : Target) × (lookup id m'.targets ≡ some t)
        × (t.ctx ≡ c)
        × (t.config.enabled ≡ true)
  replaced_owned c h = elim (ran_before c h) [
    | inl (on, fresh) ↦
        let (t, e, at, enabled) = replacement_owned on in
        (k, t, ground (arith, r.found k, int_beq_iff k k), at ∙ sym fresh, enabled)
    | inr (ran, ne) ↦
        let (id, t, found, at, enabled) = x.owned c ran in
        (id, t, ground (arith, r.found id, int_beq_iff k id, ne t, found), at, enabled)
  ]

  pub replaced-IsExact : IsExact m'
  replaced-IsExact = record {
    distinct = r.unique x.distinct;
    keyed = replaced_keyed;
    below = replaced_below;
    started_below = replaced_started;
    cancelled_below = replaced_cancelled;
    apart = replaced_apart;
    watched = replaced_watched;
    owned = replaced_owned;
  }
