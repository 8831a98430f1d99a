-- ===== src/Health/Registry/Operations.antt =====
-- healthcheck/healthcheck.go: every operation of the monitor keeps the invariant of `Exact`.
use newt.Prelude.{
  ℕ, ◌≡◌, refl, ◌⊎◌, inl, inr, Bool, true, false, none, some, List, [], ◌∷◌, arith, ℤ, ◌==◌, nat_eq,
  int_eq, int_beq_iff, if◌then◌else◌, Bool-cases, Option-cases, ltb, length, ◌||◌,
}
use newt.Prelude.GoMap.{
  GoMap, lookup, elem, keys, Distinct, insert-Distinct, delete-Distinct, elem-keys, lookup-insert,
  lookup-delete,
}
use newt.Health.{Config, Target, unknown}
use newt.Health.Registry.{
  add_targets, remove_each, remove_targets, drop_if_there, drop_each, sync_one, sync_each,
  sync_targets, desired_map, to_remove, stop, cancel_all, Monitor, new_monitor, with_defaults,
  add_target, drop_target, enable_target, enabled_again, disabled, disable_target, remove_one,
  remove_target, is_running, notify, new_target,
}
use newt.Health.Registry.Exact.{IsExact, replaced-IsExact}
use newt.Health.Registry.Agreement.{notify-IsExact}

pub new_monitor-IsExact : (callback cert : Bool) → IsExact (new_monitor callback cert)
unfolding new_monitor is_running
new_monitor-IsExact callback cert = record {
  distinct = tt;
  keyed = λ id t h. cc;
  below = λ id t h. cc;
  started_below = λ c h. cc;
  cancelled_below = λ c h. cc;
  apart = λ i j s t hi hj e. cc;
  watched = λ id t h on. cc;
  owned = λ c h. cc;
}

pub add_target-IsExact : (c : Config) (m : Monitor) → IsExact m → IsExact (add_target c m)
unfolding add_target
add_target-IsExact c m x =
    let t = new_target m.enforce_cert m.next_ctx (with_defaults c) in
    replaced-IsExact c.id c.enabled (some t) m (add_target c m)
      (record {
        found = λ j. ground (arith, lookup-insert c.id j t m.targets);
        cancelled = ground arith;
        started = ground arith;
        grows = ground arith;
        bumped = λ _. ground arith;
        unique = insert-Distinct c.id t m.targets;
        shape = (refl, refl, ground arith, inl refl);
      })
      x

pub drop_target-IsExact :
    (id : ℤ) (t : Target) (m : Monitor)
    → lookup id m.targets ≡ some t
    → IsExact m
    → IsExact (drop_target id t m)
unfolding drop_target
drop_target-IsExact id t m h x =
    replaced-IsExact id false none m (drop_target id t m)
      (record {
        found = λ j. lookup-delete id j m.targets;
        cancelled = ground arith;
        started = refl;
        grows = ground arith;
        bumped = λ e. cc;
        unique = delete-Distinct id m.targets;
        shape = refl;
      })
      x

enabled_again-IsExact :
    (id : ℤ) (t : Target) (m : Monitor)
    → lookup id m.targets ≡ some t
    → IsExact m
    → IsExact (enabled_again id t m)
unfolding enabled_again
enabled_again-IsExact id t m h x =
    let t' = record t { config = record t.config { enabled = true }; ctx = m.next_ctx } in
    replaced-IsExact id true (some t') m (enabled_again id t m)
      (record {
        found = λ j. lookup-insert id j t' m.targets;
        cancelled = ground arith;
        started = refl;
        grows = omega arith;
        bumped = λ _. omega arith;
        unique = insert-Distinct id t' m.targets;
        shape = (x.keyed id t h, refl, omega arith, inl refl);
      })
      x

pub add_targets-IsExact : (cs : List Config) (m : Monitor) → IsExact m → IsExact (add_targets cs m)
unfolding add_targets
add_targets-IsExact [] m x = x
add_targets-IsExact (c ∷ cs) m x =
    add_targets-IsExact cs (add_target c m) (add_target-IsExact c m x)

pub remove_target-IsExact : (id : ℤ) (m : Monitor) → IsExact m → IsExact (remove_target id m).0
unfolding remove_target
remove_target-IsExact id m x = elim (Option-cases (lookup id m.targets)) [
  | inl e ↦ rw (e, remove_target) x
  | inr (t, e) ↦
      rw (e, remove_target) (notify-IsExact (drop_target id t m) (drop_target-IsExact id t m e x))
]

remove_one-IsExact :
    (id : ℤ) (m : Monitor) (missing : List ℤ) → IsExact m → IsExact (remove_one id (m, missing)).0
unfolding remove_one
remove_one-IsExact id m missing x = elim (Option-cases (lookup id m.targets)) [
  | inl e ↦ rw (e, remove_one) x
  | inr (t, e) ↦ rw (e, remove_one) (drop_target-IsExact id t m e x)
]

remove_each-IsExact :
    (ids : List ℤ) (s : Monitor × List ℤ) → IsExact s.0 → IsExact (remove_each ids s).0
unfolding remove_each
remove_each-IsExact [] s x = x
remove_each-IsExact (id ∷ ids) s x =
    remove_each-IsExact ids (remove_one id s) (remove_one-IsExact id s.0 s.1 x)

if-IsExact : (b : Bool) (m m' : Monitor) → IsExact m → IsExact m' → IsExact (if b then m else m')
if-IsExact true m m' x y = x
if-IsExact false m m' x y = y

pub remove_targets-IsExact :
    (ids : List ℤ) (m : Monitor) → IsExact m → IsExact (remove_targets ids m).0
unfolding remove_targets
remove_targets-IsExact ids m x =
    let (m', missing) = remove_each ids (m, []) in
    let y = remove_each-IsExact ids (m, []) x in
    if-IsExact (length missing == length ids) m' (notify m') y (notify-IsExact m' y)

drop_if_there-IsExact : (id : ℤ) (m : Monitor) → IsExact m → IsExact (drop_if_there id m)
unfolding drop_if_there
drop_if_there-IsExact id m x = elim (Option-cases (lookup id m.targets)) [
  | inl e ↦ rw (e, drop_if_there) x
  | inr (t, e) ↦ rw (e, drop_if_there) (drop_target-IsExact id t m e x)
]

drop_each-IsExact : (ids : List ℤ) (m : Monitor) → IsExact m → IsExact (drop_each ids m)
unfolding drop_each
drop_each-IsExact [] m x = x
drop_each-IsExact (id ∷ ids) m x =
    drop_each-IsExact ids (drop_if_there id m) (drop_if_there-IsExact id m x)

sync_each-IsExact : (d : GoMap ℤ Config) (m : Monitor) → IsExact m → IsExact (sync_each d m)
unfolding sync_each sync_one
sync_each-IsExact [] m x = x
sync_each-IsExact ((id, c) ∷ rest) m x =
    sync_each-IsExact rest (sync_one id c m)
      (add_target-IsExact c (drop_if_there id m) (drop_if_there-IsExact id m x))

pub sync_targets-IsExact :
    (cs : List Config) (m : Monitor) → IsExact m → IsExact (sync_targets cs m)
unfolding sync_targets
sync_targets-IsExact cs m x =
    let desired = desired_map cs [] in
    let removed = to_remove desired (keys m.targets) in
    let m' = sync_each desired (drop_each removed m) in
    let y = sync_each-IsExact desired (drop_each removed m) (drop_each-IsExact removed m x) in
    if-IsExact (ltb 0 (length removed) || ltb 0 (length desired)) (notify m') m'
      (notify-IsExact m' y) y

pub enable_target-IsExact : (id : ℤ) (m : Monitor) → IsExact m → IsExact (enable_target id m).0
unfolding enable_target
enable_target-IsExact id m x = elim (Option-cases (lookup id m.targets)) [
  | inl e ↦ rw (e, enable_target) x
  | inr (t, e) ↦ elim (Bool-cases t.config.enabled) [
    | inl on ↦ rw (e, enable_target) (rw on x)
    | inr off ↦ rw (e, enable_target) (rw off (enabled_again-IsExact id t m e x))
  ]
]

disabled-IsExact :
    (id : ℤ) (t : Target) (m : Monitor)
    → lookup id m.targets ≡ some t
    → IsExact m
    → IsExact (disabled id t m)
unfolding disabled
disabled-IsExact id t m h x =
    let t' = record t { config = record t.config { enabled = false }; status = unknown } in
    replaced-IsExact id false (some t') m (disabled id t m)
      (record {
        found = λ j. lookup-insert id j t' m.targets;
        cancelled = ground arith;
        started = refl;
        grows = ground arith;
        bumped = λ e. cc;
        unique = insert-Distinct id t' m.targets;
        shape = (x.keyed id t h, refl, x.below id t h, inr (refl, t, h, refl));
      })
      x

pub disable_target-IsExact : (id : ℤ) (m : Monitor) → IsExact m → IsExact (disable_target id m).0
unfolding disable_target
disable_target-IsExact id m x = elim (Option-cases (lookup id m.targets)) [
  | inl e ↦ rw (e, disable_target) x
  | inr (t, e) ↦ elim (Bool-cases t.config.enabled) [
    | inl on ↦
        rw (e, disable_target)
          (rw on (notify-IsExact (disabled id t m) (disabled-IsExact id t m e x)))
    | inr off ↦ rw (e, disable_target) (rw off x)
  ]
]

-- Stopping cancels every target's context.
elem-cancel_all_old :
    (ts : GoMap ℤ Target) (cs : List ℕ) (c : ℕ)
    → elem c cs ≡ true
    → elem c (cancel_all ts cs) ≡ true
unfolding cancel_all
elem-cancel_all_old [] cs c h = h
elem-cancel_all_old ((id, t) ∷ ts) cs c h = elem-cancel_all_old ts (t.ctx ∷ cs) c (ground arith)

elem-cancel_all :
    (ts : GoMap ℤ Target) (cs : List ℕ) (id : ℤ) (t : Target)
    → lookup id ts ≡ some t
    → elem t.ctx (cancel_all ts cs) ≡ true
unfolding cancel_all
elem-cancel_all [] cs id t h = cc
elem-cancel_all ((j, u) ∷ ts) cs id t h = elim (Bool-cases (j == id)) [
  | inl e ↦ elem-cancel_all_old ts (u.ctx ∷ cs) t.ctx (ground arith)
  | inr e ↦ elem-cancel_all ts (u.ctx ∷ cs) id t (ground arith)
]

-- It cancels nothing else.
cancel_all_inv :
    (ts : GoMap ℤ Target) (cs : List ℕ) (c : ℕ)
    → Distinct ts
    → elem c (cancel_all ts cs) ≡ true
    → (elem c cs ≡ true) ⊎ ((id : ℤ) × (t : Target) × (lookup id ts ≡ some t) × (t.ctx ≡ c))
unfolding cancel_all
cancel_all_inv [] cs c d h = inl h
cancel_all_inv ((j, u) ∷ ts) cs c d h = elim (cancel_all_inv ts (u.ctx ∷ cs) c d.1 h) [
  | inl e ↦ elim (Bool-cases (u.ctx == c)) [
    | inl here ↦ inr (j, u, ground (arith, int_beq_iff j j), ground arith)
    | inr other ↦ inl (ground arith)
  ]
  | inr (id, t, found, at) ↦
      inr (id, t, ground (arith, int_beq_iff j id, elem-keys id ts, found, d.0), at)
]

stopped : (m : Monitor) → IsExact m → (c : ℕ) → is_running (stop m) c ≡ false
unfolding stop is_running
stopped m x c = elim (Bool-cases (is_running m c)) [
  | inl ran ↦
      let (id, t, found, at, on) = x.owned c ran in
      ground (arith, rw at at (elem-cancel_all m.targets m.cancelled id t found))
  | inr idle ↦ ground (arith, elem-cancel_all_old m.targets m.cancelled c)
]

pub stop-IsExact : (m : Monitor) → IsExact m → IsExact (stop m)
unfolding stop is_running
stop-IsExact m x = record {
  distinct = tt;
  keyed = λ id t h. cc;
  below = λ id t h. cc;
  started_below = x.started_below;
  cancelled_below = λ c h. elim (cancel_all_inv m.targets m.cancelled c x.distinct h) [
    | inl old ↦ x.cancelled_below c old
    | inr (id, t, found, at) ↦ omega (arith, x.below id t found)
  ];
  apart = λ i j s t hi hj e. cc;
  watched = λ id t h on. cc;
  owned = λ c h. cc (stopped m x c);
}
