-- ===== src/Health/Registry/Removal.antt =====
-- healthcheck/healthcheck.go: `RemoveTargets`.
use newt.Prelude.{
  ◌≡◌, refl, ◌≢◌, ◌↔◌, inl, inr, Bool, true, false, none, some, List, [], ◌∷◌, ◌++◌, arith, ℤ, ◌==◌,
  nat_eq, int_eq, int_beq_iff, if◌then◌else◌, is_some, Option-cases, length, ◌∙◌,
}
use newt.Prelude.GoMap.{GoMap, lookup, delete, elem, lookup-delete}
use newt.Health.{Target}
use newt.Health.Registry.{
  Monitor, remove_one, remove_each, remove_targets, drop_target, missing_error, notify,
}

-- Every id is there, and none is given twice.
abbrev pub AllPresent : List ℤ → GoMap ℤ Target → Type 0
AllPresent [] ts = Unit
AllPresent (id ∷ ids) ts =
    (is_some (lookup id ts) ≡ true) × (elem id ids ≡ false) × AllPresent ids ts

AllPresent-delete :
    (id : ℤ) (ids : List ℤ) (ts : GoMap ℤ Target)
    → AllPresent ids (delete id ts) ↔ ((elem id ids ≡ false) × AllPresent ids ts)
AllPresent-delete id [] ts = (λ h. (refl, tt), λ h. tt)
AllPresent-delete id (j ∷ ids) ts =
    let ih = AllPresent-delete id ids ts in
    (
      λ h. ground (arith, ih, lookup-delete id j ts, int_beq_iff id j, int_beq_iff j id),
      λ h. ground (arith, ih, lookup-delete id j ts, int_beq_iff id j, int_beq_iff j id),
    )

lookup-remove_each :
    (ids : List ℤ) (s : Monitor × List ℤ) (j : ℤ)
    → lookup j (remove_each ids s).0.targets ≡ (if elem j ids then none else lookup j s.0.targets)
unfolding remove_each remove_one
lookup-remove_each [] s j = refl
lookup-remove_each (id ∷ ids) s j = ground (
  arith,
  lookup-remove_each ids (remove_one id s) j,
  lookup-delete id j s.0.targets,
  int_beq_iff id j,
)

append_ne_nil : (ms : List ℤ) (id : ℤ) → (ms ++ id ∷ []) ≢ []
append_ne_nil [] id h = cc
append_ne_nil (x ∷ ms) id h = cc

remove_one-missing :
    (id : ℤ) (m : Monitor) (ms : List ℤ)
    → lookup id m.targets ≡ none
    → remove_one id (m, ms) ≡ (m, ms ++ id ∷ [])
unfolding remove_one
remove_one-missing id m ms e = ground arith

remove_one-found :
    (id : ℤ) (m : Monitor) (ms : List ℤ) (t : Target)
    → lookup id m.targets ≡ some t
    → remove_one id (m, ms) ≡ (drop_target id t m, ms)
unfolding remove_one
remove_one-found id m ms t e = ground arith

remove_each-eq-nil :
    (ids : List ℤ) (m : Monitor) (ms : List ℤ)
    → ((remove_each ids (m, ms)).1 ≡ []) ↔ ((ms ≡ []) × AllPresent ids m.targets)
unfolding remove_each drop_target
remove_each-eq-nil [] m ms = (λ h. (h, tt), λ h. h.0)
remove_each-eq-nil (id ∷ ids) m ms = elim (Option-cases (lookup id m.targets)) [
  | inl e ↦
      let ih = remove_each-eq-nil ids m (ms ++ id ∷ []) in
      rw (remove_one-missing id m ms e, remove_each)
        (λ h. absurd (append_ne_nil ms id (ih.0 h).0), λ h. ground (arith, h.1))
  | inr (t, e) ↦
      let ih = remove_each-eq-nil ids (drop_target id t m) ms in
      let here = AllPresent-delete id ids m.targets in
      rw (remove_one-found id m ms t e, remove_each)
        (
          λ h. ((ih.0 h).0, (ground arith, (here.0 (ih.0 h).1).0, (here.0 (ih.0 h).1).1)),
          λ h. ih.1 (h.0, here.1 (h.1.1, h.1.2)),
        )
]

missing_error-none : (ids : List ℤ) → missing_error ids ≡ none → ids ≡ []
missing_error-none ids h = ground arith

notified-targets :
    (b : Bool) (m : Monitor) (j : ℤ)
    → lookup j (if b then m else notify m).targets ≡ lookup j m.targets
notified-targets b m j = ground arith

-- Whatever the ids are, exactly the targets under them are gone afterwards and the others are as
-- they were; and no error is returned exactly when every id was there and none was given twice.
pub remove_targets_lem :
    (ids : List ℤ) (m : Monitor)
    → ((j : ℤ)
        → lookup j (remove_targets ids m).0.targets
          ≡ (if elem j ids then none else lookup j m.targets))
      × (((remove_targets ids m).1 ≡ none) ↔ AllPresent ids m.targets)
unfolding remove_targets
remove_targets_lem ids m =
    let (m', missing) = remove_each ids (m, []) in
    (
      λ j. notified-targets (length missing == length ids) m' j ∙ lookup-remove_each ids (m, []) j,
      (
        λ h. ((remove_each-eq-nil ids m []).0 (missing_error-none missing h)).1,
        λ h. rw ((remove_each-eq-nil ids m []).1 (refl, h)) refl,
      ),
    )
