-- ===== src/Health/Check.antt =====
-- healthcheck/healthcheck.go: `performHealthCheck`, `performTCPCheck`, `performHTTPCheck`.
-- `net.JoinHostPort` and the URL's text stay structured (`HostPort`, `Url`); the headers are handed
-- to the request in the order in which `range` visits them.
pub mod Thresholds
pub mod Http
use Prim.Native.Char.{code}
use Prim.Native.String.{◌++◌}
use text.Mathlib.Text.{starts_with}
use newt.Prelude.{
  ℕ, ◌+◌, String, Bool, true, false, ◌&&◌, Option, none, some, List, [], ◌∷◌, ℤ, pos, inc64, ltb_ℤ,
  leb_ℤ, leb, ◌==◌, nat_eq, string_eq, int_eq, if◌then◌else◌,
}
use newt.Health.{
  Health, healthy, unhealthy, Config, CheckError, dial_failed, create_failed, request_failed,
  unexpected_status, unhealthy_status, Client, Target,
}

pub record HostPort : Type 0 where
  pub host : String
  pub port : ℤ

pub record Url : Type 0 where
  pub scheme : String
  pub host : String
  pub port : Option ℤ
  pub path : String

pub record Request : Type 0 where
  pub method : String
  pub url : Url
  pub host : Option String
  pub headers : List (String × String)

pub data Response : Type 0 where
  no_response : String → Response
  status_code : ℤ → Response

-- What `net.Dialer`, `http.NewRequestWithContext` and `http.Client` answer at one check.
pub record Network : Type 0 where
  pub dial : HostPort → ℤ → Option String
  pub new_request : String → Url → Option String
  pub send : Client → ℤ → Request → Response

-- A letter under case folding; U+017F and U+212A are what folds into ASCII from outside.
fold_code : ℕ → ℕ
fold_code c =
    if leb b'A' c && leb c b'Z'
    then c + 32
    else if c == 0x17f
    then b's'
    else if c == 0x212a
    then b'k'
    else c

-- `strings.EqualFold`, and `strings.ToLower(s) == t` for a lower-case `t` without `s` and `k`.
unfoldable pub equal_fold : String → String → Bool
unfolding fold_code
equal_fold String.[] String.[] = true
equal_fold (String.◌∷◌ c s) (String.◌∷◌ d t) =
    let rest = equal_fold s t in fold_code (code c) == fold_code (code d) && rest
equal_fold _ _ = false

unfoldable pub perform_tcp_check : Network → Config → Option CheckError
perform_tcp_check net c = elim (net.dial (record { host = c.hostname; port = c.port }) c.timeout) [
  | none ↦ none
  | some err ↦ some (dial_failed err)
]

url_path : String → String
url_path path = if path == "" then "" else if starts_with path "/" then path else "/" ++ path

unfoldable pub check_url : Config → Url
unfolding url_path
check_url c = record {
  scheme = c.scheme;
  host = c.hostname;
  port = if ltb_ℤ (pos 0) c.port then some c.port else none;
  path = url_path c.path;
}

-- the loop over `Config.Headers`: the Host header goes into `req.Host`
unfoldable pub add_headers : List (String × String) → Request → Request
add_headers [] req = req
add_headers ((key, value) ∷ rest) req = add_headers rest (
    if equal_fold key "Host"
    then record req { host = some value }
    else record req { headers = (key, value) ∷ req.headers })

unfoldable pub check_status : ℤ → ℤ → Option CheckError
check_status expected got =
    if ltb_ℤ (pos 0) expected
    then (if got == expected then none else some (unexpected_status got expected))
    else if leb_ℤ (pos 200) got && ltb_ℤ got (pos 300)
    then none
    else some (unhealthy_status got)

judge : Config → Response → Option CheckError
judge c (no_response err) = some (request_failed err)
judge c (status_code got) = check_status c.status got

unfoldable pub perform_http_check : Network → Config → Client → Option CheckError
unfolding judge
perform_http_check net c client = elim (net.new_request c.method (check_url c)) [
  | some err ↦ some (create_failed err)
  | none ↦
      let req : Request = record {
        method = c.method;
        url = check_url c;
        host = none;
        headers = [];
      } in
      judge c (net.send client c.timeout (add_headers c.headers req))
]

-- the `switch` on the mode: `none` is a check that passed
unfoldable pub run_check : Network → Config → Client → Option CheckError
run_check net c client =
    if equal_fold c.mode "tcp" then perform_tcp_check net c else perform_http_check net c client

-- the threshold logic, by the outcome
unfoldable pub apply_outcome : Option CheckError → Target → Target
apply_outcome none t =
    let n = inc64 t.consecutive_successes in
    let t' = record t { consecutive_failures = pos 0; consecutive_successes = n } in
    if leb_ℤ t.config.healthy_threshold n
    then record t' { status = healthy; last_error = none }
    else t'
apply_outcome (some err) t =
    let n = inc64 t.consecutive_failures in
    let t' = record t {
      consecutive_successes = pos 0;
      consecutive_failures = n;
      last_error = some err;
    } in
    if leb_ℤ t.config.unhealthy_threshold n then record t' { status = unhealthy } else t'

unfoldable pub perform_health_check : Network → ℕ → Target → Target
unfolding apply_outcome
perform_health_check net now t =
    apply_outcome (run_check net t.config t.client)
      (record t { check_count = inc64 t.check_count; last_check = now })
