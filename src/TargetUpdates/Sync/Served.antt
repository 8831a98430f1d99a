-- ===== src/TargetUpdates/Sync/Served.antt =====
-- newt/data.go over proxy/manager.go: the listeners of a running manager over a sync.
use newt.Prelude.{
  ◌≡◌, subst, refl, sym, int_beq_iff, string_eq, ◌∙◌, ap, String, true, false, Option, none, some,
  List, [], ◌∷◌, ℤ, int_eq, ◌==◌, if◌then◌else◌, arith, Bool-cases, inl, inr, is_some, from_option,
}
use newt.Prelude.GoMap.{GoMap, lookup, elem}
use newt.HostPort.{Text, text_eq}
use newt.Proxy.{ProxyManager, Net, Targets, IsPort, is_backed, add_target, remove_target}
use newt.Proxy.Serving.{
  served, served-absent, AreApart, AreApart-without_port, served-without_port, served-append,
  AreApart-append, remove_target-listeners, remove_target-rest, add_target-tcp_listeners,
  add_target-udp_listeners,
}
use newt.Proxy.Targets.{target_of}
use newt.TargetUpdates.Reparse.{IsTarget}
use newt.TargetUpdates.Store.{
  Kind, kind_name, forwards, add_target-forwards, remove_target-forwards, add_target-other,
  remove_target-other, update-remove, update-add,
}
use newt.TargetUpdates.Sync.{desired_from, update_one, drop_stale, add_one, add_missing, sync_kind}

-- The manager runs, and listens on exactly the ports of its targets of the address, once each, for
-- these targets.
pub record IsServing (ip : String) (pm : ProxyManager) : Type 0 where
  pub running : pm.running ≡ true
  pub backed : is_backed pm ≡ true
  pub tcp_apart : AreApart pm.listeners
  pub udp_apart : AreApart pm.udp_conns
  pub tcp : (k : ℤ) → served k pm.listeners ≡ target_of ip k pm.tcp_targets
  pub udp : (k : ℤ) → served k pm.udp_conns ≡ target_of ip k pm.udp_targets

abbrev pub taken_by : Kind → Net → List ℤ
taken_by Kind.tcp net = net.taken_tcp
taken_by Kind.udp net = net.taken_udp

remove_target-IsServing :
    (kind : Kind) (ip : String) (port : ℤ) (pm : ProxyManager)
    → IsServing ip pm
    → IsServing ip (remove_target (kind_name kind) ip port pm).1
remove_target-IsServing Kind.tcp ip port pm h = elim (remove_target-listeners ip port pm).0 [
  | inl same ↦ rw same h
  | inr closed ↦
      let rest = (remove_target-rest ip port pm).0 in
      let others = remove_target-other Kind.tcp ip port pm in
      record {
        running = rest.0 ∙ h.running;
        backed = rest.1 ∙ h.backed;
        tcp_apart = rw closed (AreApart-without_port port pm.listeners h.tcp_apart);
        udp_apart = rw (rest.2) h.udp_apart;
        tcp = λ k.
            ap (served k) closed
            ∙ served-without_port port k pm.listeners h.tcp_apart
            ∙ ap (λ x. if port == k then none else x) (h.tcp k)
            ∙ sym (remove_target-forwards Kind.tcp ip port pm k);
        udp = λ k. ap (served k) rest.2 ∙ h.udp k ∙ ap (target_of ip k) (sym others);
      }
]
remove_target-IsServing Kind.udp ip port pm h = elim (remove_target-listeners ip port pm).1 [
  | inl same ↦ rw same h
  | inr closed ↦
      let rest = (remove_target-rest ip port pm).1 in
      let others = remove_target-other Kind.udp ip port pm in
      record {
        running = rest.0 ∙ h.running;
        backed = rest.1 ∙ h.backed;
        tcp_apart = rw (rest.2) h.tcp_apart;
        udp_apart = rw closed (AreApart-without_port port pm.udp_conns h.udp_apart);
        tcp = λ k. ap (served k) rest.2 ∙ h.tcp k ∙ ap (target_of ip k) (sym others);
        udp = λ k.
            ap (served k) closed
            ∙ served-without_port port k pm.udp_conns h.udp_apart
            ∙ ap (λ x. if port == k then none else x) (h.udp k)
            ∙ sym (remove_target-forwards Kind.udp ip port pm k);
      }
]

add_target-IsServing :
    (net : Net) (kind : Kind) (ip : String) (port : ℤ) (t : Text) (pm : ProxyManager)
    → IsServing ip pm
    → forwards kind ip port pm ≡ none
    → IsPort port
    → elem port (taken_by kind net) ≡ false
    → IsServing ip (add_target net (kind_name kind) ip port t pm).1
add_target-IsServing net Kind.tcp ip port t pm h absent is_port free =
    let new = served-absent port pm.listeners (h.tcp port ∙ absent) in
    let opened = add_target-tcp_listeners net ip port t pm h.running h.backed is_port new free in
    let others = add_target-other net Kind.tcp ip port t pm in
    record {
      running = opened.1;
      backed = opened.2;
      tcp_apart = rw (opened.0) (AreApart-append pm.listeners _ h.tcp_apart new);
      udp_apart = rw (opened.3) h.udp_apart;
      tcp = λ k.
          ap (served k) opened.0
          ∙ served-append k pm.listeners _ new
          ∙ ap (λ x. if port == k then some t else x) (h.tcp k)
          ∙ sym (add_target-forwards net Kind.tcp ip port t pm k);
      udp = λ k. ap (served k) opened.3 ∙ h.udp k ∙ ap (target_of ip k) (sym others);
    }
add_target-IsServing net Kind.udp ip port t pm h absent is_port free =
    let new = served-absent port pm.udp_conns (h.udp port ∙ absent) in
    let opened = add_target-udp_listeners net ip port t pm h.running h.backed is_port new free in
    let others = add_target-other net Kind.udp ip port t pm in
    record {
      running = opened.1;
      backed = opened.2;
      tcp_apart = rw (opened.3) h.tcp_apart;
      udp_apart = rw (opened.0) (AreApart-append pm.udp_conns _ h.udp_apart new);
      tcp = λ k. ap (served k) opened.3 ∙ h.tcp k ∙ ap (target_of ip k) (sym others);
      udp = λ k.
          ap (served k) opened.0
          ∙ served-append k pm.udp_conns _ new
          ∙ ap (λ x. if port == k then some t else x) (h.udp k)
          ∙ sym (add_target-forwards net Kind.udp ip port t pm k);
    }

-- Each target of a map has a port in range, a host and a port, none of them with brackets.
abbrev pub AllTargets : GoMap ℤ Text → Type 0
AllTargets [] = Unit
AllTargets ((port, t) ∷ more) = IsTarget port t × AllTargets more

pub lookup-AllTargets :
    (k : ℤ) (t : Text) (m : GoMap ℤ Text) → AllTargets m → lookup k m ≡ some t → IsTarget k t
lookup-AllTargets k t [] h e = cc
lookup-AllTargets k t ((j, u) ∷ m) h e = elim (Bool-cases (j == k)) [
  | inl same ↦
      let jk = (int_beq_iff j k).0 same in
      let ut : u ≡ t = ground arith in
      subst (λ x. IsTarget x t) jk (subst (λ y. IsTarget j y) ut h.0)
  | inr differ ↦ lookup-AllTargets k t m h.1 (ground arith)
]

-- None of the ports is taken by another.
abbrev pub AllFree : List ℤ → GoMap ℤ Text → Type 0
AllFree taken [] = Unit
AllFree taken ((port, t) ∷ more) = (elem port taken ≡ false) × AllFree taken more

module _ (net : Net) (ip : String) (kind : Kind) where
  update_removes-IsServing :
      (port : ℤ) (t : Text) (pm : ProxyManager)
      → IsTarget port t
      → IsServing ip pm
      → IsServing ip (update_one none net ip kind "remove" port t pm)
  update_removes-IsServing port t pm ok h =
      subst (IsServing ip) (sym (update-remove net kind ip port t pm ok none))
        (remove_target-IsServing kind ip port pm h)

  update_adds-IsServing :
      (port : ℤ) (t : Text) (pm : ProxyManager)
      → IsTarget port t
      → elem port (taken_by kind net) ≡ false
      → IsServing ip pm
      → IsServing ip (update_one none net ip kind "add" port t pm)
  update_adds-IsServing port t pm ok free h =
      let cleared = (remove_target (kind_name kind) ip port pm).1 in
      let absent : forwards kind ip port cleared ≡ none =
        remove_target-forwards kind ip port pm port ∙ ground (arith, int_beq_iff port port) in
      subst (IsServing ip) (sym (update-add net kind ip port t pm ok)) (
        add_target-IsServing net kind ip port t cleared (remove_target-IsServing kind ip port pm h)
          absent (ok.number, ok.is_number, ok.low, ok.high) free)

  drop_stale-IsServing :
      (desired m : GoMap ℤ Text) (pm : ProxyManager)
      → AllTargets m
      → IsServing ip pm
      → IsServing ip (drop_stale none net ip kind desired m pm)
  unfolding drop_stale
  drop_stale-IsServing desired [] pm ok h = h
  drop_stale-IsServing desired ((port, t) ∷ m) pm ok h =
      elim (Bool-cases (is_some (lookup port desired))) [
        | inl e ↦ rw (e, drop_stale) (drop_stale-IsServing desired m pm ok.1 h)
        | inr e ↦
            rw (e, drop_stale)
              (drop_stale-IsServing desired m (update_one none net ip kind "remove" port t pm) ok.1
                (update_removes-IsServing port t pm ok.0 h))
      ]

  add_one-IsServing :
      (port : ℤ) (t : Text) (before : Option Text) (pm : ProxyManager)
      → IsTarget port t
      → elem port (taken_by kind net) ≡ false
      → ((old : Text) → before ≡ some old → IsTarget port old)
      → IsServing ip pm
      → IsServing ip (add_one none net ip kind port t before pm)
  unfolding add_one
  add_one-IsServing port t none pm ok free was h = update_adds-IsServing port t pm ok free h
  add_one-IsServing port t (some old) pm ok free was h = elim (Bool-cases (old == t)) [
    | inl e ↦ rw (e, add_one) h
    | inr e ↦
        rw (e, add_one)
          (update_adds-IsServing port t (update_one none net ip kind "remove" port old pm) ok free
            (update_removes-IsServing port old pm (was old refl) h))
  ]

  add_missing-IsServing :
      (current m : GoMap ℤ Text) (pm : ProxyManager)
      → AllTargets current
      → AllTargets m
      → AllFree (taken_by kind net) m
      → IsServing ip pm
      → IsServing ip (add_missing none net ip kind current m pm)
  unfolding add_missing
  add_missing-IsServing current [] pm c ok free h = h
  add_missing-IsServing current ((port, t) ∷ m) pm c ok free h =
      add_missing-IsServing current m (add_one none net ip kind port t (lookup port current) pm) c
        ok.1 free.1
        (add_one-IsServing port t (lookup port current) pm ok.0 free.0
          (λ old e. lookup-AllTargets port old current c e) h)

  pub sync_kind-IsServing :
      (before : Targets) (texts : List Text) (pm : ProxyManager)
      → IsServing ip pm
      → AllTargets (from_option [] (lookup ip before))
      → AllTargets (desired_from [] texts)
      → AllFree (taken_by kind net) (desired_from [] texts)
      → IsServing ip (sync_kind none net ip kind before texts pm)
  unfolding sync_kind
  sync_kind-IsServing before texts pm h c ok free =
      let current = from_option [] (lookup ip before) in
      let desired = desired_from [] texts in
      add_missing-IsServing current desired (drop_stale none net ip kind desired current pm) c ok
        free (drop_stale-IsServing desired current pm c h)
