-- ===== src/TargetUpdates/Sync/Exact.antt =====
-- newt/data.go: the targets after a sync.
use newt.Prelude.{
  ◌≡◌, refl, String, true, not, ◌&&◌, Option, none, some, List, [], ◌∷◌, ◌==◌, string_eq, int_eq,
  int_beq_iff, if◌then◌else◌, ℤ, arith, ◌∙◌, ap, sym, Option-cases, Bool-cases, inl, inr, is_some,
  from_option,
}
use newt.Prelude.GoMap.{
  lookup-absent, GoMap, lookup, insert, keys, elem, elem-keys, Distinct, insert-Distinct,
}
use newt.HostPort.{Text, text_eq, text_beq_iff}
use newt.Proxy.{Targets, ProxyManager, Net, get_targets}
use newt.Proxy.Targets.{target_of}
use newt.TargetUpdates.Reparse.{IsTarget}
use newt.Proxy.Serving.{served}
use newt.TargetUpdates.Sync.Served.{
  AllTargets, lookup-AllTargets, AllFree, IsServing, sync_kind-IsServing,
}
use newt.TargetUpdates.Store.{
  Kind, table, other, forwards, update_targets-removes, update_targets-adds,
}
use newt.TargetUpdates.Sync.{
  desired_entry, desired_from, update_one, drop_stale, add_one, add_missing, sync_kind, handle_sync,
}

desired_from-Distinct :
    (ts : List Text) (m : GoMap ℤ Text) → Distinct m → Distinct (desired_from m ts)
unfolding desired_from
desired_from-Distinct [] m d = d
desired_from-Distinct (t ∷ ts) m d = elim (Option-cases (desired_entry t)) [
  | inl e ↦ rw (e, desired_from) (desired_from-Distinct ts m d)
  | inr ((port, target), e) ↦
      rw (e, desired_from)
        (desired_from-Distinct ts (insert port target m) (insert-Distinct port target m d))
]

module _ (net : Net) (ip : String) (kind : Kind) where
  -- one round of the loop
  kept_or_removed :
      (desired : GoMap ℤ Text) (port : ℤ) (t : Text) (pm : ProxyManager) (k : ℤ)
      → IsTarget port t
      → let pm1 =
          if is_some (lookup port desired)
          then pm
          else update_one none net ip kind "remove" port t pm in
        (forwards kind ip k pm1 ≡ (
          if (port == k) && not (is_some (lookup port desired))
          then none
          else forwards kind ip k pm))
        × (table (other kind) pm1 ≡ table (other kind) pm)
  kept_or_removed desired port t pm k ok =
      let gone = update_targets-removes net kind ip port t pm ok none k in
      elim (Bool-cases (is_some (lookup port desired))) [
        | inl e ↦ rw e (ground arith, refl)
        | inr e ↦ rw e (ground (arith, gone), gone.1)
      ]

  drop_stale-forwards :
      (desired : GoMap ℤ Text) (m : GoMap ℤ Text) (pm : ProxyManager) (k : ℤ)
      → AllTargets m
      → (forwards kind ip k (drop_stale none net ip kind desired m pm) ≡ (
          if elem k (keys m) && not (is_some (lookup k desired))
          then none
          else forwards kind ip k pm))
        × (table (other kind) (drop_stale none net ip kind desired m pm) ≡ table (other kind) pm)
  unfolding drop_stale
  drop_stale-forwards desired [] pm k h = (refl, refl)
  drop_stale-forwards desired ((port, t) ∷ m) pm k h =
      let pm1 =
        if is_some (lookup port desired)
        then pm
        else update_one none net ip kind "remove" port t pm in
      let rest = drop_stale-forwards desired m pm1 k h.1 in
      let one = kept_or_removed desired port t pm k h.0 in
      let same =
        λ (e : (port == k) ≡ true). ap (λ x. lookup x desired) ((int_beq_iff port k).0 e) in
      (
        rest.0 ∙ elim (Bool-cases (port == k)) [
          | inl e ↦ ground (arith, one.0, same e)
          | inr e ↦ ground (arith, one.0)
        ],
        rest.1 ∙ one.1,
      )

  -- the target of a port after the loop: what it was before the sync, what is desired, what it is now
  abbrev settled : Option Text → Option Text → Option Text → Option Text
  settled before none now = now
  settled before (some t) now =
      if is_some before && (from_option [] before == t) then now else some t

  add_one-forwards :
      (port : ℤ) (t : Text) (before : Option Text) (pm : ProxyManager) (k : ℤ)
      → IsTarget port t
      → ((old : Text) → before ≡ some old → IsTarget port old)
      → (forwards kind ip k (add_one none net ip kind port t before pm) ≡ (
          if port == k
          then settled before (some t) (forwards kind ip k pm)
          else forwards kind ip k pm))
        × (table (other kind) (add_one none net ip kind port t before pm) ≡ table (other kind) pm)
  unfolding add_one
  add_one-forwards port t none pm k ok h = update_targets-adds net kind ip port t pm ok k
  add_one-forwards port t (some old) pm k ok h = elim (Bool-cases (old == t)) [
    | inl e ↦ ground arith
    | inr e ↦
        let gone = update_targets-removes net kind ip port old pm (h old refl) none k in
        let pm1 = update_one none net ip kind "remove" port old pm in
        let back = update_targets-adds net kind ip port t pm1 ok k in ground (arith, gone, back)
  ]

  add_missing-forwards :
      (current m : GoMap ℤ Text) (pm : ProxyManager) (k : ℤ)
      → AllTargets current
      → AllTargets m
      → Distinct m
      → (forwards kind ip k (add_missing none net ip kind current m pm)
          ≡ settled (lookup k current) (lookup k m) (forwards kind ip k pm))
        × (table (other kind) (add_missing none net ip kind current m pm) ≡ table (other kind) pm)
  unfolding add_missing
  add_missing-forwards current [] pm k hc h d = (refl, refl)
  add_missing-forwards current ((port, t) ∷ m) pm k hc h d =
      let pm1 = add_one none net ip kind port t (lookup port current) pm in
      let one =
        add_one-forwards port t (lookup port current) pm k h.0
          (λ old e. lookup-AllTargets port old current hc e) in
      let rest = add_missing-forwards current m pm1 k hc h.1 d.1 in
      let before =
        λ (e : (port == k) ≡ true). ap (λ x. lookup x current) ((int_beq_iff port k).0 e) in
      (
        rest.0 ∙ elim (Bool-cases (port == k)) [
          | inl e ↦ ground (arith, one.0, lookup-absent port k m d.0 e, before e)
          | inr e ↦ ground (arith, one.0)
        ],
        rest.1 ∙ one.1,
      )

  -- what a sync makes of one protocol, where the snapshot is that of the manager
  pub sync_kind-forwards :
      (texts : List Text) (pm : ProxyManager) (before : Targets) (k : ℤ)
      → before ≡ table kind pm
      → AllTargets (from_option [] (lookup ip before))
      → AllTargets (desired_from [] texts)
      → (forwards kind ip k (sync_kind none net ip kind before texts pm)
          ≡ lookup k (desired_from [] texts))
        × (table (other kind) (sync_kind none net ip kind before texts pm) ≡ table (other kind) pm)
  unfolding sync_kind
  sync_kind-forwards texts pm before k same hc h =
      let current = from_option [] (lookup ip before) in
      let desired = desired_from [] texts in
      let now : forwards kind ip k pm ≡ lookup k current =
        ap (λ (m : Targets). target_of ip k m) (sym same) in
      let drop = drop_stale-forwards desired current pm k hc in
      let add =
        add_missing-forwards current desired (drop_stale none net ip kind desired current pm) k hc h
          (desired_from-Distinct texts [] tt) in
      (
        add.0
            ∙ ground (
              arith,
              drop.0,
              now,
              elem-keys k current,
              text_beq_iff (from_option [] (lookup k current)) (from_option [] (lookup k desired)),
            ),
        add.1 ∙ drop.1,
      )

-- A manager runs and listens on exactly the ports of its targets of the tunnel's address, once each,
-- for these targets; they and all that are desired have a port in range, a host and a port. Without an updown script,
-- and where nobody else listens on the desired ports: after a sync the manager still runs, and for each
-- port the handler of its listener forwards to what the message says for that port; it does not listen
-- on the ports that the message does not name, and its targets of the address are those of the message.
pub handle_sync-exact :
    (net : Net) (ip : String) (tcp_texts udp_texts : List Text) (pm : ProxyManager) (k : ℤ)
    → IsServing ip pm
    → AllTargets (from_option [] (lookup ip pm.tcp_targets))
    → AllTargets (from_option [] (lookup ip pm.udp_targets))
    → AllTargets (desired_from [] tcp_texts)
    → AllTargets (desired_from [] udp_texts)
    → AllFree net.taken_tcp (desired_from [] tcp_texts)
    → AllFree net.taken_udp (desired_from [] udp_texts)
    → let pm' = handle_sync none net ip tcp_texts udp_texts pm in
      (pm'.running ≡ true)
      × (served k pm'.listeners ≡ lookup k (desired_from [] tcp_texts))
      × (served k pm'.udp_conns ≡ lookup k (desired_from [] udp_texts))
      × (target_of ip k pm'.tcp_targets ≡ lookup k (desired_from [] tcp_texts))
      × (target_of ip k pm'.udp_targets ≡ lookup k (desired_from [] udp_texts))
unfolding handle_sync get_targets
handle_sync-exact net ip tcp_texts udp_texts pm k serving ct cu dt du ft fu =
    let pm1 = sync_kind none net ip Kind.tcp pm.tcp_targets tcp_texts pm in
    let pm2 = sync_kind none net ip Kind.udp pm.udp_targets udp_texts pm1 in
    let first = sync_kind-forwards net ip Kind.tcp tcp_texts pm pm.tcp_targets k refl ct dt in
    let second =
      sync_kind-forwards net ip Kind.udp udp_texts pm1 pm.udp_targets k (sym first.1) cu du in
    let tcp : target_of ip k pm2.tcp_targets ≡ lookup k (desired_from [] tcp_texts) =
      ap (λ (m : Targets). target_of ip k m) second.1 ∙ first.0 in
    let half = sync_kind-IsServing net ip Kind.tcp pm.tcp_targets tcp_texts pm serving ct dt ft in
    let done = sync_kind-IsServing net ip Kind.udp pm.udp_targets udp_texts pm1 half cu du fu in
    (done.running, done.tcp k ∙ tcp, done.udp k ∙ second.0, tcp, second.0)
