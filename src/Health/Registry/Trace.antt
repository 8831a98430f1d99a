-- ===== src/Health/Registry/Trace.antt =====
-- healthcheck/healthcheck.go: any sequence of calls on a new monitor, with checks in between.
use newt.Prelude.{ℕ, ◌≡◌, ◌↔◌, Bool, true, List, [], ◌∷◌, some, ℤ, int_eq}
use newt.Prelude.GoMap.{lookup}
use newt.Health.{Config, Target}
use newt.Health.Check.{Network}
use newt.Health.Registry.{
  Monitor, new_monitor, add_target, add_targets, remove_target, remove_targets, sync_targets, stop,
  enable_target, disable_target, check_target, is_running,
}
use newt.Health.Registry.Exact.{IsExact}
use newt.Health.Registry.Agreement.{check_target-IsExact}
use newt.Health.Registry.Operations.{
  new_monitor-IsExact, add_target-IsExact, add_targets-IsExact, remove_target-IsExact,
  remove_targets-IsExact, sync_targets-IsExact, stop-IsExact, enable_target-IsExact,
  disable_target-IsExact,
}

pub data Call : Type 0 where
  add : Config → Call
  add_all sync : List Config → Call
  remove enable disable : ℤ → Call
  remove_all : List ℤ → Call
  check : ℤ → Network → ℕ → Call
  stop_all : Call

abbrev pub perform : Call → Monitor → Monitor
perform (add c) m = add_target c m
perform (add_all cs) m = add_targets cs m
perform (sync cs) m = sync_targets cs m
perform (remove id) m = (remove_target id m).0
perform (enable id) m = (enable_target id m).0
perform (disable id) m = (disable_target id m).0
perform (remove_all ids) m = (remove_targets ids m).0
perform (check id net now) m = check_target id net now m
perform stop_all m = stop m

abbrev pub perform_all : List Call → Monitor → Monitor
perform_all [] m = m
perform_all (c ∷ cs) m = perform_all cs (perform c m)

pub perform-IsExact : (c : Call) (m : Monitor) → IsExact m → IsExact (perform c m)
perform-IsExact (add c) m x = add_target-IsExact c m x
perform-IsExact (add_all cs) m x = add_targets-IsExact cs m x
perform-IsExact (sync cs) m x = sync_targets-IsExact cs m x
perform-IsExact (remove id) m x = remove_target-IsExact id m x
perform-IsExact (enable id) m x = enable_target-IsExact id m x
perform-IsExact (disable id) m x = disable_target-IsExact id m x
perform-IsExact (remove_all ids) m x = remove_targets-IsExact ids m x
perform-IsExact (check id net now) m x = check_target-IsExact id net now m x
perform-IsExact stop_all m x = stop-IsExact m x

perform_all-IsExact : (cs : List Call) (m : Monitor) → IsExact m → IsExact (perform_all cs m)
perform_all-IsExact [] m x = x
perform_all-IsExact (c ∷ cs) m x = perform_all-IsExact cs (perform c m) (perform-IsExact c m x)

-- After any calls on a new monitor, a context has a started and uncancelled monitoring goroutine
-- exactly when it is the context of an enabled target.
pub running_iff_enabled :
    (callback cert : Bool) (calls : List Call) (c : ℕ)
    → (is_running (perform_all calls (new_monitor callback cert)) c ≡ true) ↔ (
        (id : ℤ) × (t : Target) × (lookup id (perform_all calls (new_monitor callback cert)).targets
          ≡ some t)
        × (t.ctx ≡ c)
        × (t.config.enabled ≡ true))
running_iff_enabled callback cert calls c =
    let x =
      perform_all-IsExact calls (new_monitor callback cert) (new_monitor-IsExact callback cert) in
    (x.owned c, λ (id, t, found, at, on). rw at at (x.watched id t found on))
