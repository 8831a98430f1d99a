-- ===== src/TargetUpdates.antt =====
-- newt/targets.go: target texts of the form listenPort:host:targetPort, and `updateTargets`, which
-- carries them into the proxy manager. The script that may replace a target is a parameter, the
-- trimmed output of its run (none if it fails).
pub mod Reparse
pub mod Store
pub mod Sync
mod Tests
use newt.Prelude.{
  ℕ, ◌≤◌, String, Bool, true, false, ◌||◌, Option, none, some, List, [], ◌∷◌, ◌==◌, nat_eq,
  string_eq, if◌then◌else◌, leb, ℤ, pos, negsuc,
}
use newt.HostPort.{Text, text, text_eq, split_first, split_host_port, join_host_port}
use newt.Numeral.{scan_int}
use newt.Proxy.{ProxyManager, Net, ProxyError, add_target, remove_target}

-- the host and port behind the listen port, neither of them empty
unfoldable pub parse_remainder : Option (Text × Text) → Option Text
parse_remainder none = none
parse_remainder (some (host, port)) =
    if host == [] then none else if port == [] then none else some (join_host_port host port)

-- `none` is any of the errors
unfoldable pub parse_target_string : Text → Option (ℤ × Text)
unfolding parse_remainder
parse_target_string target = elim (split_first b':' target) [
  | none ↦ none
  | some (listen, remainder) ↦ elim (scan_int listen) [
    | none ↦ none
    | some (negsuc n) ↦ none
    | some (pos n) ↦
        if n == 0 || leb 65536 n then none else elim (parse_remainder (split_host_port remainder)) [
          | none ↦ none
          | some t ↦ some (pos n, t)
        ]
  ]
]

-- the arguments: the action, the protocol and the target
abbrev pub Script : Type 0
Script = String → String → Text → Option Text

-- `none` where the script fails
unfoldable pub execute_updown_script : Option Script → String → String → Text → Option Text
execute_updown_script none action proto target = some target
execute_updown_script (some script) action proto target = elim (script action proto target) [
  | none ↦ none
  | some output ↦ if output == [] then some target else some output
]

-- the target to be added: the script's, where it gives one
unfoldable pub processed_target : Option Script → String → Text → Text
unfolding execute_updown_script
processed_target script proto target = elim (execute_updown_script script "add" proto target) [
  | none ↦ target
  | some t ↦ if t == [] then target else t
]

-- the body of the loop; an error ends the loop
unfoldable pub update_target :
    Option Script
    → Net
    → String
    → String
    → String
    → ℤ
    → Text
    → ProxyManager
    → Option ProxyError × ProxyManager
unfolding processed_target
update_target script net action ip proto port target pm =
    if action == "add"
    then (
      none,
      (add_target net proto ip port (processed_target script proto target)
          (remove_target proto ip port pm).1).1,
    )
    else if action == "remove"
    then remove_target proto ip port pm
    else (none, pm)

unfoldable pub update_targets :
    Option Script
    → Net
    → String
    → String
    → String
    → List Text
    → ProxyManager
    → Option ProxyError × ProxyManager
unfolding update_target
update_targets script net action ip proto [] pm = (none, pm)
update_targets script net action ip proto (t ∷ more) pm = elim (parse_target_string t) [
  | none ↦ update_targets script net action ip proto more pm
  | some (port, target) ↦
      let r = update_target script net action ip proto port target pm in
      elim r.0 [
        | some e ↦ (some e, r.1)
        | none ↦ update_targets script net action ip proto more r.1
      ]
]
