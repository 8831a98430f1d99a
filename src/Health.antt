-- ===== src/Health.antt =====
-- healthcheck/healthcheck.go: the data of the health monitor. `Check` has the checks and their
-- thresholds, `Registry` the operations on the set of targets, `Loop` the monitoring goroutine.
-- Network answers are arguments (`Network`): the dialer and the HTTP client are not this program's.
-- A context is a number; texts of errors are values of `CheckError`, and no error is `none`.
pub mod Check
pub mod Registry
pub mod Loop
mod Tests
use newt.Prelude.{ℕ, String, Bool, Option, List, ℤ}

pub data Health : Type 0 where
  unknown healthy unhealthy : Health

pub record Config : Type 0 where
  pub id : ℤ
  pub enabled : Bool
  pub path : String
  pub scheme : String
  pub mode : String
  pub hostname : String
  pub port : ℤ
  pub interval : ℤ
  pub unhealthy_interval : ℤ
  pub timeout : ℤ
  pub follow_redirects : Option Bool
  pub headers : List (String × String)
  pub method : String
  pub status : ℤ
  pub tls_server_name : String
  pub healthy_threshold : ℤ
  pub unhealthy_threshold : ℤ

-- the reasons for a failed check, one for each message of the source
pub data CheckError : Type 0 where
  dial_failed create_failed request_failed : String → CheckError
  unexpected_status : ℤ → ℤ → CheckError
  unhealthy_status : ℤ → CheckError

-- the settings of the target's `http.Client`
pub record Client : Type 0 where
  pub follow : Bool
  pub disable_keep_alives : Bool
  pub insecure_skip_verify : Bool
  pub server_name : String

pub record Target : Type 0 where
  pub config : Config
  pub status : Health
  pub last_check : ℕ
  pub last_error : Option CheckError
  pub check_count : ℤ
  pub ctx : ℕ
  pub client : Client
  pub consecutive_successes : ℤ
  pub consecutive_failures : ℤ
