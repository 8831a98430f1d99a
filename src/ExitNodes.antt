-- ===== src/ExitNodes.antt =====
-- exitnode/exitnode.go: `PingExitNodes`. The HTTP request of an attempt is a function of its url and
-- number, which gives the latency in nanoseconds or the error's text; a weight is its bit pattern.
pub mod Choice
mod Tests
use newt.Prelude.{
  ℕ, zero, suc, ◌+◌, ◌/◌, String, Bool, true, false, not, ◌&&◌, ◌||◌, Option, none, some, List, [],
  ◌∷◌, ◌++◌, ◌==◌, nat_eq, ℤ, if◌then◌else◌, ltb, length, is_some,
}
use newt.HostPort.{Text, text, text_eq}

pub record ExitNode : Type 0 where
  pub id : ℤ
  pub name : Text
  pub endpoint : Text
  pub weight : ℕ
  pub was_previously_connected : Bool

pub record PingResult : Type 0 where
  pub exit_node_id : ℤ
  pub latency_ms : ℕ
  pub weight : ℕ
  pub error : Text
  pub name : Text
  pub endpoint : Text
  pub was_previously_connected : Bool

pub data Reply : Type 0 where
  answered : ℕ → Reply
  failed : Text → Reply

abbrev pub Get : Type 0
Get = Text → ℕ → Reply

unfoldable pub has_prefix : Text → Text → Bool
has_prefix [] s = true
has_prefix (c ∷ p) [] = false
has_prefix (c ∷ p) (d ∷ s) = let rest = has_prefix p s in c == d && rest

-- a text that is the other, or behind some of its bytes
unfoldable pub has_suffix : Text → Text → Bool
has_suffix p [] = p == []
has_suffix p (d ∷ s) = let rest = has_suffix p s in p == (d ∷ s) || rest

-- `strings.TrimRight(s, "/")`
unfoldable pub trim_slashes : Text → Text
trim_slashes [] = []
trim_slashes (c ∷ s) = let rest = trim_slashes s in if c == b'/' && rest == [] then [] else c ∷ rest

unfoldable pub ping_url : Text → Text
unfolding has_prefix has_suffix trim_slashes
ping_url endpoint =
    let url =
      if has_prefix (text "http://") endpoint || has_prefix (text "https://") endpoint
      then endpoint
      else text "http://" ++ endpoint in
    if has_suffix (text "/ping") url then url else trim_slashes url ++ text "/ping"

-- the results of the attempts: the sum of the latencies, the number of answers, the last error
pub record Attempts : Type 0 where
  pub total : ℕ
  pub successes : ℕ
  pub last_error : Text

unfoldable pub add_attempt : Reply → Attempts → Attempts
add_attempt (answered latency) a = record a {
  total = a.total + latency;
  successes = a.successes + 1;
}
add_attempt (failed e) a = record a { last_error = e }

-- the loop over the attempts that are left
unfoldable pub attempt_from : Get → Text → ℕ → ℕ → Attempts → Attempts
unfolding add_attempt
attempt_from get url zero j a = a
attempt_from get url (suc left) j a = attempt_from get url left (j + 1) (add_attempt (get url j) a)

-- `res.Latency.Milliseconds()` of the average
abbrev average_ms : Attempts → ℕ
average_ms a = if a.successes == 0 then 0 else a.total / a.successes / 1000000

unfoldable pub ping_node : Get → ExitNode → PingResult
unfolding ping_url attempt_from
ping_node get node =
    let a =
      attempt_from get (ping_url node.endpoint) 3 0
        (record { total = 0; successes = 0; last_error = [] }) in
    record {
      exit_node_id = node.id;
      latency_ms = average_ms a;
      weight = node.weight;
      error = if a.successes == 0 then a.last_error else [];
      name = node.name;
      endpoint = node.endpoint;
      was_previously_connected = node.was_previously_connected;
    }

abbrev pub ping_each : Get → List ExitNode → List PingResult
ping_each get [] = []
ping_each get (n ∷ l) = ping_node get n ∷ ping_each get l

-- the result of a node that is not pinged
abbrev pub unpinged : ExitNode → PingResult
unpinged node = record {
  exit_node_id = node.id;
  latency_ms = 0;
  weight = node.weight;
  error = [];
  name = node.name;
  endpoint = node.endpoint;
  was_previously_connected = node.was_previously_connected;
}

-- the first node of the endpoint, or the given one
unfoldable pub select_node : Text → ExitNode → List ExitNode → ExitNode
select_node prefer selected [] = selected
select_node prefer selected (n ∷ l) =
    let rest = select_node prefer selected l in if n.endpoint == prefer then n else rest

-- the index of the last node that was connected
unfoldable pub previous_from : ℕ → Option ℕ → List PingResult → Option ℕ
previous_from i found [] = found
previous_from i found (r ∷ l) =
    previous_from (i + 1) (if r.was_previously_connected then some i else found) l

abbrev pub is_good : PingResult → Bool
is_good r = ltb 0 r.latency_ms && r.error == []

-- the good nodes beside that of the index
unfoldable pub count_good : ℕ → ℕ → List PingResult → ℕ
count_good i skip [] = 0
count_good i skip (r ∷ l) =
    (if not (i == skip) && is_good r then 1 else 0) + count_good (i + 1) skip l

unfoldable pub without_index : ℕ → ℕ → List PingResult → List PingResult
without_index i skip [] = []
without_index i skip (r ∷ l) =
    let rest = without_index (i + 1) skip l in if i == skip then rest else r ∷ rest

unfoldable pub exclude_previous : List PingResult → List PingResult
unfolding previous_from count_good without_index
exclude_previous l = elim (previous_from 0 none l) [
  | none ↦ l
  | some k ↦ if count_good 0 k l == 0 then l else without_index 0 k l
]

unfoldable pub ping_exit_nodes : Get → List ExitNode → Text → Bool → List PingResult
unfolding select_node ping_node exclude_previous
ping_exit_nodes get [] prefer connected = []
ping_exit_nodes get (n ∷ l) prefer connected =
    if length (n ∷ l) == 1 || not (prefer == [])
    then unpinged (if prefer == [] then n else select_node prefer n (n ∷ l)) ∷ []
    else (let all = ping_each get (n ∷ l) in if connected then exclude_previous all else all)
