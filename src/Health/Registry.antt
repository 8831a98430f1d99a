-- ===== src/Health/Registry.antt =====
-- healthcheck/healthcheck.go: the set of targets and its operations (`AddTarget` … `SyncTargets`).
-- Contexts are numbers: `next_ctx` is the next fresh one, `cancelled` and `started` list those on
-- which `cancel` was called and for which `go m.monitorTarget` was started. `notified` lists the
-- snapshots handed to the callback, the latest first.
pub mod Exact
mod Agreement
pub mod Operations
pub mod Trace
pub mod Sync
pub mod Removal
use newt.Prelude.{
  ℕ, ◌+◌, String, Bool, true, false, not, ◌&&◌, ◌||◌, Option, none, some, List, [], ◌∷◌, ◌++◌, ℤ,
  pos, ltb, length, is_some, ◌==◌, nat_eq, string_eq, int_eq, if◌then◌else◌, from_option,
}
use newt.Prelude.GoMap.{GoMap, lookup, insert, delete, keys, elem}
use newt.Health.{Health, unknown, Config, Client, Target}
use newt.Health.Check.{Network, perform_health_check}

pub record Monitor : Type 0 where
  pub targets : GoMap ℤ Target
  pub has_callback : Bool
  pub enforce_cert : Bool
  pub next_ctx : ℕ
  pub cancelled : List ℕ
  pub started : List ℕ
  pub notified : List (GoMap ℤ Target)

-- the errors of the operations: no target with that id, and the ids that a removal did not find
pub data Err : Type 0 where
  not_found : ℤ → Err
  targets_not_found : List ℤ → Err

unfoldable pub new_monitor : Bool → Bool → Monitor
new_monitor has_callback enforce_cert = record {
  targets = [];
  has_callback = has_callback;
  enforce_cert = enforce_cert;
  next_ctx = 0;
  cancelled = [];
  started = [];
  notified = [];
}

abbrev pub default_text : String → String → String
default_text d s = if s == "" then d else s

abbrev pub default_int : ℕ → ℤ → ℤ
default_int d n = if n == pos 0 then pos d else n

-- the defaults that `addTargetUnsafe` sets
unfoldable pub with_defaults : Config → Config
with_defaults c = record c {
  scheme = default_text "http" c.scheme;
  mode = default_text "http" c.mode;
  method = default_text "GET" c.method;
  interval = default_int 30 c.interval;
  unhealthy_interval = default_int 30 c.unhealthy_interval;
  timeout = default_int 5 c.timeout;
  healthy_threshold = default_int 1 c.healthy_threshold;
  unhealthy_threshold = default_int 1 c.unhealthy_threshold;
}

unfoldable pub new_target : Bool → ℕ → Config → Target
new_target enforce_cert ctx c = record {
  config = c;
  status = unknown;
  last_check = 0;
  last_error = none;
  check_count = pos 0;
  ctx = ctx;
  client = record {
    follow = from_option true c.follow_redirects;
    disable_keep_alives = true;
    insecure_skip_verify = not enforce_cert;
    server_name = c.tls_server_name;
  };
  consecutive_successes = pos 0;
  consecutive_failures = pos 0;
}

-- `target.cancel()`
abbrev pub cancel : Target → Monitor → Monitor
cancel t m = record m { cancelled = t.ctx ∷ m.cancelled }

abbrev pub cancel_existing : Option Target → Monitor → Monitor
cancel_existing none m = m
cancel_existing (some t) m = cancel t m

-- `go m.callback(m.getAllTargetsUnsafe())`
abbrev pub notify : Monitor → Monitor
notify m = if m.has_callback then record m { notified = m.targets ∷ m.notified } else m

-- `addTargetUnsafe`: it returns no error on any path
unfoldable pub add_target : Config → Monitor → Monitor
unfolding new_target with_defaults
add_target config m =
    let c = with_defaults config in
    let m' = cancel_existing (lookup c.id m.targets) m in
    record m' {
      targets = insert c.id (new_target m.enforce_cert m.next_ctx c) m.targets;
      next_ctx = m.next_ctx + 1;
      started = if c.enabled then m.next_ctx ∷ m.started else m.started;
    }

unfoldable pub add_targets : List Config → Monitor → Monitor
add_targets [] m = m
add_targets (c ∷ rest) m = add_targets rest (add_target c m)

-- `target.cancel(); delete(m.targets, id)`
unfoldable pub drop_target : ℤ → Target → Monitor → Monitor
drop_target id t m = record (cancel t m) { targets = delete id m.targets }

unfoldable pub remove_target : ℤ → Monitor → Monitor × Option Err
unfolding drop_target
remove_target id m = elim (lookup id m.targets) [
  | none ↦ (m, some (not_found id))
  | some t ↦ (notify (drop_target id t m), none)
]

-- one round of the loop of `RemoveTargets`
unfoldable pub remove_one : ℤ → Monitor × List ℤ → Monitor × List ℤ
unfolding drop_target
remove_one id (m, missing) = elim (lookup id m.targets) [
  | none ↦ (m, missing ++ id ∷ [])
  | some t ↦ (drop_target id t m, missing)
]

unfoldable pub remove_each : List ℤ → Monitor × List ℤ → Monitor × List ℤ
remove_each [] s = s
remove_each (id ∷ ids) s = remove_each ids (remove_one id s)

abbrev pub missing_error : List ℤ → Option Err
missing_error [] = none
missing_error (id ∷ ids) = some (targets_not_found (id ∷ ids))

unfoldable pub remove_targets : List ℤ → Monitor → Monitor × Option Err
remove_targets ids m =
    let (m', missing) = remove_each ids (m, []) in
    (if length missing == length ids then m' else notify m', missing_error missing)

cancel_all : GoMap ℤ Target → List ℕ → List ℕ
cancel_all [] cs = cs
cancel_all ((id, t) ∷ ts) cs = cancel_all ts (t.ctx ∷ cs)

unfoldable pub stop : Monitor → Monitor
unfolding cancel_all
stop m = record m { targets = []; cancelled = cancel_all m.targets m.cancelled }

unfoldable pub enabled_again : ℤ → Target → Monitor → Monitor
enabled_again id t m = record (cancel t m) {
  targets =
      insert id (record t { config = record t.config { enabled = true }; ctx = m.next_ctx })
        m.targets;
  next_ctx = m.next_ctx + 1;
  started = m.next_ctx ∷ m.started;
}

unfoldable pub enable_target : ℤ → Monitor → Monitor × Option Err
unfolding enabled_again
enable_target id m = elim (lookup id m.targets) [
  | none ↦ (m, some (not_found id))
  | some t ↦ if t.config.enabled then (m, none) else (enabled_again id t m, none)
]

unfoldable pub disabled : ℤ → Target → Monitor → Monitor
disabled id t m = record (cancel t m) {
  targets =
      insert id (record t { config = record t.config { enabled = false }; status = unknown })
        m.targets;
}

unfoldable pub disable_target : ℤ → Monitor → Monitor × Option Err
unfolding disabled
disable_target id m = elim (lookup id m.targets) [
  | none ↦ (m, some (not_found id))
  | some t ↦ if t.config.enabled then (notify (disabled id t m), none) else (m, none)
]

-- the goroutine of a target performs a check: the map holds the same object
unfoldable pub check_target : ℤ → Network → ℕ → Monitor → Monitor
check_target id net now m = elim (lookup id m.targets) [
  | none ↦ m
  | some t ↦ record m { targets = insert id (perform_health_check net now t) m.targets }
]

-- `desiredIDs`: the last configuration given for an id
unfoldable pub desired_map : List Config → GoMap ℤ Config → GoMap ℤ Config
desired_map [] d = d
desired_map (c ∷ cs) d = desired_map cs (insert c.id c d)

-- the ids that exist and are not desired
unfoldable pub to_remove : GoMap ℤ Config → List ℤ → List ℤ
to_remove d [] = []
to_remove d (id ∷ ids) =
    let rest = to_remove d ids in if is_some (lookup id d) then rest else id ∷ rest

drop_if_there : ℤ → Monitor → Monitor
unfolding drop_target
drop_if_there id m = elim (lookup id m.targets) [ none ↦ m | some t ↦ drop_target id t m ]

unfoldable pub drop_each : List ℤ → Monitor → Monitor
unfolding drop_if_there
drop_each [] m = m
drop_each (id ∷ ids) m = drop_each ids (drop_if_there id m)

-- one desired target: an existing one is dropped first
unfoldable pub sync_one : ℤ → Config → Monitor → Monitor
unfolding drop_if_there
sync_one id c m = add_target c (drop_if_there id m)

unfoldable pub sync_each : GoMap ℤ Config → Monitor → Monitor
unfolding sync_one
sync_each [] m = m
sync_each ((id, c) ∷ rest) m = sync_each rest (sync_one id c m)

-- `SyncTargets`: `addedCount + updatedCount` is the number of desired ids
unfoldable pub sync_targets : List Config → Monitor → Monitor
sync_targets configs m =
    let desired = desired_map configs [] in
    let removed = to_remove desired (keys m.targets) in
    let m' = sync_each desired (drop_each removed m) in
    if ltb 0 (length removed) || ltb 0 (length desired) then notify m' else m'

-- whether a monitoring goroutine was started on a context that is not cancelled
unfoldable pub is_running : Monitor → ℕ → Bool
is_running m c = elem c m.started && not (elem c m.cancelled)
