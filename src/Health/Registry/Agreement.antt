-- ===== src/Health/Registry/Agreement.antt =====
-- healthcheck/healthcheck.go: what leaves contexts and configurations alone keeps the invariant of
-- `Exact`: a notification, and a check of one target.
use newt.Prelude.{
  ℕ, ◌≡◌, refl, inl, inr, true, some, arith, ℤ, ◌==◌, nat_eq, int_eq, int_beq_iff, Bool-cases,
  Option-cases, sym, ◌∙◌, subst, ap,
}
use newt.Prelude.GoMap.{GoMap, lookup, insert, Distinct, insert-Distinct, lookup-insert}
use newt.Health.{Target}
use newt.Health.Check.{Network, perform_health_check}
use newt.Health.Registry.{Monitor, check_target, is_running, notify}
use newt.Health.Registry.Exact.{IsExact}

-- Two monitors whose maps agree up to what the checks change, on the same contexts.
record Agrees (m m' : Monitor) : Type 0 where
  back :
      (j : ℤ) (t' : Target)
      → lookup j m'.targets ≡ some t'
      → (t : Target) × (lookup j m.targets ≡ some t) × (t'.ctx ≡ t.ctx) × (t'.config ≡ t.config)
  forth :
      (j : ℤ) (t : Target)
      → lookup j m.targets ≡ some t
      → (t' : Target) × (lookup j m'.targets ≡ some t') × (t'.ctx ≡ t.ctx) × (t'.config ≡ t.config)
  unique : Distinct m.targets → Distinct m'.targets
  next : m'.next_ctx ≡ m.next_ctx
  cancelled : m'.cancelled ≡ m.cancelled
  started : m'.started ≡ m.started

module _ (m m' : Monitor) (g : Agrees m m') (x : IsExact m) where
  same_running : (c : ℕ) → is_running m' c ≡ is_running m c
  unfolding is_running
  same_running c = cc (g.cancelled, g.started)

  agreeing_watched :
      (id : ℤ) (t : Target)
      → lookup id m'.targets ≡ some t
      → t.config.enabled ≡ true
      → is_running m' t.ctx ≡ true
  agreeing_watched id t h on =
      let (u, found, at, same) = g.back id t h in
      same_running t.ctx ∙ rw at (x.watched id u found (ap (λ c. c.enabled) (sym same) ∙ on))

  agreeing_owned :
      (c : ℕ)
      → is_running m' c ≡ true
      → (id : ℤ) × (t : Target) × (lookup id m'.targets ≡ some t)
        × (t.ctx ≡ c)
        × (t.config.enabled ≡ true)
  agreeing_owned c h =
      let (id, u, found, at, on) = x.owned c (sym (same_running c) ∙ h) in
      let (t, found', at', same) = g.forth id u found in
      (id, t, found', at' ∙ at, ap (λ c. c.enabled) same ∙ on)

  agreeing-IsExact : IsExact m'
  agreeing-IsExact = record {
    distinct = g.unique x.distinct;
    keyed = λ id t h.
        let (u, found, at, same) = g.back id t h in ap (λ c. c.id) same ∙ x.keyed id u found;
    below = λ id t h.
        let (u, found, at, same) = g.back id t h in omega (arith, x.below id u found, g.next);
    started_below = λ c h. omega (arith, x.started_below c (cc (g.started)), g.next);
    cancelled_below = λ c h. omega (arith, x.cancelled_below c (cc (g.cancelled)), g.next);
    apart = λ i j t u hi hj e.
        let (t', ft, at, _) = g.back i t hi in
        let (u', fu, au, _) = g.back j u hj in x.apart i j t' u' ft fu (sym at ∙ e ∙ au);
    watched = agreeing_watched;
    owned = agreeing_owned;
  }

notify-targets : (m : Monitor) → m.targets ≡ (notify m).targets
notify-targets m = ground arith

notify-Distinct : (m : Monitor) → Distinct m.targets → Distinct (notify m).targets
notify-Distinct m d = subst Distinct (notify-targets m) d

pub notify-IsExact : (m : Monitor) → IsExact m → IsExact (notify m)
notify-IsExact m x =
    agreeing-IsExact m (notify m)
      (record {
        back = λ j t h. (t, ground arith, refl, refl);
        forth = λ j t h. (t, ground arith, refl, refl);
        unique = λ d. notify-Distinct m d;
        next = ground arith;
        cancelled = ground arith;
        started = ground arith;
      })
      x

module _ (id : ℤ) (net : Network) (now : ℕ) (m : Monitor) (t : Target)
    (e : lookup id m.targets ≡ some t) where
  checked_targets : GoMap ℤ Target
  checked_targets = insert id (perform_health_check net now t) m.targets

  check_back :
      (j : ℤ) (u : Target)
      → lookup j checked_targets ≡ some u
      → (v : Target) × (lookup j m.targets ≡ some v) × (u.ctx ≡ v.ctx) × (u.config ≡ v.config)
  unfolding checked_targets perform_health_check
  check_back j u h = elim (Bool-cases (id == j)) [
    | inl p ↦
        let same = lookup-insert id j (perform_health_check net now t) m.targets in
        (t, ground (arith, int_beq_iff id j, e), ground (arith, same), ground (arith, same))
    | inr p ↦
        let same = lookup-insert id j (perform_health_check net now t) m.targets in
        (u, ground (arith, same), refl, refl)
  ]

  check_forth :
      (j : ℤ) (u : Target)
      → lookup j m.targets ≡ some u
      → (v : Target) × (lookup j checked_targets ≡ some v) × (v.ctx ≡ u.ctx) × (v.config ≡ u.config)
  unfolding checked_targets perform_health_check
  check_forth j u h = elim (Bool-cases (id == j)) [
    | inl p ↦ (
      perform_health_check net now t,
      ground (arith, lookup-insert id j (perform_health_check net now t) m.targets),
      ground (arith, int_beq_iff id j, e),
      ground (arith, int_beq_iff id j, e),
    )
    | inr p ↦ (
      u,
      ground (arith, lookup-insert id j (perform_health_check net now t) m.targets),
      refl,
      refl,
    )
  ]

  checked-IsExact : IsExact m → IsExact (record m { targets = checked_targets })
  unfolding checked_targets
  checked-IsExact =
      agreeing-IsExact m (record m { targets = checked_targets })
        (record {
          back = check_back;
          forth = check_forth;
          unique = insert-Distinct id (perform_health_check net now t) m.targets;
          next = refl;
          cancelled = refl;
          started = refl;
        })

pub check_target-IsExact :
    (id : ℤ) (net : Network) (now : ℕ) (m : Monitor)
    → IsExact m
    → IsExact (check_target id net now m)
unfolding check_target checked_targets
check_target-IsExact id net now m x = elim (Option-cases (lookup id m.targets)) [
  | inl e ↦ rw (e, check_target) x
  | inr (t, e) ↦ rw (e, check_target) (checked-IsExact id net now m t e x)
]
