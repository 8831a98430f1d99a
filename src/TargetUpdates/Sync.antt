-- ===== src/TargetUpdates/Sync.antt =====
-- newt/data.go: the part of `handleSync` that makes the targets of the tunnel's address the ones
-- that the server sent. The other parts hand their data to other components.
pub mod Served
pub mod Exact
pub mod Bracketed
use newt.Prelude.{
  ℕ, String, Bool, true, false, Option, none, some, List, [], ◌∷◌, ◌++◌, ◌==◌, nat_eq, int_eq,
  string_eq, if◌then◌else◌, ℤ, is_some, from_option,
}
use newt.Prelude.GoMap.{GoMap, lookup, insert}
use newt.HostPort.{Text, text_eq}
use newt.Numeral.{scan_int}
use newt.Proxy.{ProxyManager, Net, Targets, get_targets}
use newt.TargetUpdates.{Script, update_targets}
use newt.TargetUpdates.Reparse.{target_text}
use newt.TargetUpdates.Store.{Kind, kind_name}

abbrev on_head : ℕ → List Text → List Text
on_head x [] = (x ∷ []) ∷ []
on_head x (h ∷ t) = (x ∷ h) ∷ t

-- `strings.Split`
unfoldable pub split_all : ℕ → Text → List Text
split_all c [] = [] ∷ []
split_all c (x ∷ s) = let rest = split_all c s in if x == c then [] ∷ rest else on_head x rest

unfoldable pub entry_of : List Text → Option (ℤ × Text)
entry_of (a ∷ b ∷ c ∷ []) = elim (scan_int a) [ none ↦ none | some n ↦ some (n, b ++ b':' ∷ c) ]
entry_of _ = none

-- the entry that a text of the message gives, unless it is not of three parts
unfoldable pub desired_entry : Text → Option (ℤ × Text)
unfolding split_all entry_of
desired_entry t = entry_of (split_all b':' t)

unfoldable pub desired_from : GoMap ℤ Text → List Text → GoMap ℤ Text
unfolding desired_entry
desired_from m [] = m
desired_from m (t ∷ ts) = elim (desired_entry t) [
  | none ↦ desired_from m ts
  | some (port, target) ↦ desired_from (insert port target m) ts
]

module _ (script : Option Script) (net : Net) (ip : String) (kind : Kind) where
  -- `updateTargets` with one text
  abbrev pub update_one : String → ℤ → Text → ProxyManager → ProxyManager
  update_one action port t pm =
      (update_targets script net action ip (kind_name kind) (target_text port t ∷ []) pm).1

  -- the loop that removes what is not desired
  unfoldable pub drop_stale : GoMap ℤ Text → GoMap ℤ Text → ProxyManager → ProxyManager
  drop_stale desired [] pm = pm
  drop_stale desired ((port, t) ∷ more) pm =
      drop_stale desired more
        (if is_some (lookup port desired) then pm else update_one "remove" port t pm)

  -- one desired target, beside the target that the port had when the sync began
  unfoldable pub add_one : ℤ → Text → Option Text → ProxyManager → ProxyManager
  add_one port t none pm = update_one "add" port t pm
  add_one port t (some old) pm =
      if old == t then pm else update_one "add" port t (update_one "remove" port old pm)

  -- the loop that adds what is missing
  unfoldable pub add_missing : GoMap ℤ Text → GoMap ℤ Text → ProxyManager → ProxyManager
  unfolding add_one
  add_missing current [] pm = pm
  add_missing current ((port, t) ∷ more) pm =
      add_missing current more (add_one port t (lookup port current) pm)

  -- the targets of one protocol, for what the manager had when the sync began
  unfoldable pub sync_kind : Targets → List Text → ProxyManager → ProxyManager
  unfolding drop_stale add_missing desired_from
  sync_kind before texts pm =
      let current = from_option [] (lookup ip before) in
      let desired = desired_from [] texts in
      add_missing current desired (drop_stale desired current pm)

unfoldable pub handle_sync :
    Option Script → Net → String → List Text → List Text → ProxyManager → ProxyManager
unfolding sync_kind get_targets
handle_sync script net ip tcp_texts udp_texts pm =
    let (current_tcp, current_udp) = get_targets pm in
    sync_kind script net ip Kind.udp current_udp udp_texts
      (sync_kind script net ip Kind.tcp current_tcp tcp_texts pm)
