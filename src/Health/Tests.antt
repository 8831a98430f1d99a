-- ===== src/Health/Tests.antt =====
-- The health monitor at concrete configurations and network answers.
use newt.Prelude.{
  ℕ, ◌≤◌, ◌≡◌, refl, ◌↔◌, true, false, none, some, List, [], ◌∷◌, arith, ℤ, pos, length, All, take,
  int_eq, nat_eq, if◌then◌else◌,
}
use newt.Prelude.GoMap.{lookup, elem}
use newt.Health.{healthy, unhealthy, Config, Target}
use newt.Health.Check.{
  Network, status_code, no_response, perform_health_check, perform_http_check, check_url, run_check,
  equal_fold, perform_tcp_check, add_headers, check_status,
}
use newt.Health.Check.Thresholds.{
  after, outcomes, status_of, IsFresh, status-eq-status_of, unhealthy_needs_failures,
}
use newt.Health.Check.Http.{request}
use newt.Health.Registry.{
  Monitor, new_monitor, new_target, with_defaults, sync_targets, remove_targets, is_running,
}
use newt.Health.Registry.Trace.{Call, add, perform_all, running_iff_enabled}
use newt.Health.Registry.Removal.{AllPresent, remove_targets_lem}
use newt.Health.Registry.Sync.{view, fresh_view, sync_targets_lem}
use newt.Health.Loop.{begin, loop}
use newt.Health.Loop.Notifications.{timers, onto, IsTracking, monitoring-IsTracking}
use newt.Health.Loop.Overlap.{Shared, checking, waiting, Reach, overlap}

-- A network on which every TCP dial succeeds and every request gets one code; and a dead one.
abbrev up : ℤ → Network
up code = record { dial = λ a t. none; new_request = λ m u. none; send = λ c t r. status_code code }

abbrev down : Network
down = record {
  dial = λ a t. some "refused";
  new_request = λ m u. none;
  send = λ c t r. no_response "refused";
}

abbrev config : ℕ → Config
config id = record {
  id = pos id;
  enabled = true;
  path = "status";
  scheme = "";
  mode = "TCP";
  hostname = "db";
  port = pos 5432;
  interval = pos 0;
  unhealthy_interval = pos 7;
  timeout = pos 0;
  follow_redirects = none;
  headers = ("HOST", "db.local") ∷ ("X-Probe", "1") ∷ [];
  method = "";
  status = pos 0;
  tls_server_name = "";
  healthy_threshold = pos 1;
  unhealthy_threshold = pos 2;
}

abbrev target : Target
target = new_target true 0 (config 3)

program : Unit {0}
unfolding new_target with_defaults perform_health_check run_check equal_fold perform_tcp_check
    perform_http_check check_url add_headers check_status
program = tt

two_failures :
    ((after target ((down, 2) ∷ (up (pos 200), 1) ∷ [])).status ≡ healthy)
    × ((after target ((down, 3) ∷ (down, 2) ∷ (up (pos 200), 1) ∷ [])).status ≡ unhealthy)
unfolding program
two_failures = (refl, refl)

host_header : request (config 3) ≡ record {
  method = "";
  url = record { scheme = ""; host = "db"; port = some (pos 5432); path = "/status" };
  host = some "db.local";
  headers = ("X-Probe", "1") ∷ [];
}
unfolding program
host_header = refl

target-IsFresh : IsFresh target
unfolding new_target
target-IsFresh = record { status = refl; successes = refl; failures = refl }

status-eq-status_of_example :
    (after target ((down, 2) ∷ (up (pos 200), 1) ∷ [])).status
    ≡ status_of 1 2 (outcomes target ((down, 2) ∷ (up (pos 200), 1) ∷ []))
unfolding new_target
status-eq-status_of_example =
    status-eq-status_of target target-IsFresh 1 2 refl refl ((down, 2) ∷ (up (pos 200), 1) ∷ [])
      (omega arith)

unhealthy_needs_failures_example :
    (2 ≤ length {A = Network × ℕ} ((down, 3) ∷ (down, 2) ∷ []))
    × All (λ r. r ≡ false) (take 2 (outcomes target ((down, 3) ∷ (down, 2) ∷ [])))
unfolding program
unhealthy_needs_failures_example =
    unhealthy_needs_failures target target-IsFresh 1 2 refl refl (down, 3) ((down, 2) ∷ [])
      (omega arith) (λ p. cc) refl

abbrev calls : List Call
calls = add (config 3) ∷ add (config 4) ∷ Call.disable (pos 3) ∷ Call.enable (pos 3) ∷ []

abbrev monitor : Monitor
monitor = perform_all calls (new_monitor true false)

running_iff_enabled_example : (is_running monitor 2 ≡ true) ↔ (
    (id : ℤ) × (t : Target) × (lookup id monitor.targets ≡ some t)
    × (t.ctx ≡ 2)
    × (t.config.enabled ≡ true))
running_iff_enabled_example = running_iff_enabled true false calls 2

remove_targets_lem_example :
    ((j : ℤ)
      → lookup j (remove_targets (pos 3 ∷ pos 9 ∷ []) monitor).0.targets
        ≡ (if elem j (pos 3 ∷ pos 9 ∷ []) then none else lookup j monitor.targets))
    × (((remove_targets (pos 3 ∷ pos 9 ∷ []) monitor).1 ≡ none)
        ↔ AllPresent (pos 3 ∷ pos 9 ∷ []) monitor.targets)
remove_targets_lem_example = remove_targets_lem (pos 3 ∷ pos 9 ∷ []) monitor

sync_targets_lem_example :
    view (lookup (pos 4) (sync_targets (config 4 ∷ config 5 ∷ []) monitor).targets)
    ≡ fresh_view (some (config 4))
sync_targets_lem_example = sync_targets_lem (config 4 ∷ config 5 ∷ []) monitor (pos 4)

monitoring-IsTracking_example :
    IsTracking target
      (onto ((down, 2) ∷ (down, 3) ∷ []) ((up (pos 200), 1) ∷ []))
      (loop true (timers ((down, 2) ∷ (down, 3) ∷ [])) (begin true (up (pos 200)) 1 target)).0
unfolding new_target
monitoring-IsTracking_example =
    monitoring-IsTracking target (up (pos 200)) 1 ((down, 2) ∷ (down, 3) ∷ []) refl

abbrev in_flight : Shared
in_flight = record { enabled = true; ctx = 0; next_ctx = 1; cancelled = []; loops = checking ∷ [] }

overlap_example :
    (t : Shared) × Reach in_flight t
    × (t.loops ≡ waiting t.ctx ∷ waiting t.ctx ∷ [])
    × (t.enabled ≡ true)
    × (elem t.ctx t.cancelled ≡ false)
overlap_example = overlap in_flight refl refl refl
