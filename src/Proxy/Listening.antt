-- ===== src/Proxy/Listening.antt =====
-- proxy/manager.go: what the manager listens on.
use newt.Prelude.{
  ◌≡◌, subst, int_eq, refl, sym, ◌∙◌, ap, String, true, false, Option, none, some, List, [], ◌∷◌,
  ◌++◌, append_assoc, append_nil, ℤ, inl, inr, Bool-cases, Option-cases, arith, if◌then◌else◌,
  is_some, ◌==◌, string_eq,
}
use newt.Prelude.GoMap.{GoMap, keys, elem}
use newt.HostPort.{Text}
use newt.Proxy.{
  Targets, Listener, ProxyManager, Net, ProxyError, start_target, start_tcp, start_udp, start_each,
  start_all, start_rest, start, stop, is_backed, ports, IsPort,
}

-- all ports of the targets, in the order in which `range` visits them
abbrev pub all_ports : Targets → List ℤ
all_ports [] = []
all_ports ((ip, t) ∷ m) = keys t ++ all_ports m

-- The starts keep the flag and the targets, and those of one protocol keep the other's listeners.
abbrev Keeps : ProxyManager → ProxyManager → Type 0
Keeps a b =
    (b.running ≡ a.running)
    × (b.tcp_targets ≡ a.tcp_targets)
    × (b.udp_targets ≡ a.udp_targets)
    × (is_backed b ≡ is_backed a)

start_target-Keeps :
    (net : Net) (proto : String) (port : ℤ) (target : Text) (pm : ProxyManager)
    → Keeps pm (start_target net proto port target pm).1
unfolding start_target start_tcp start_udp
start_target-Keeps net proto port target pm = ground arith

start_each-Keeps :
    (net : Net) (proto : String) (t : GoMap ℤ Text) (pm : ProxyManager)
    → Keeps pm (start_each net proto t pm).1
unfolding start_each
start_each-Keeps net proto [] pm = (refl, refl, refl, refl)
start_each-Keeps net proto ((port, target) ∷ rest) pm =
    let r = start_target net proto port target pm in
    let k = start_target-Keeps net proto port target pm in
    elim (Option-cases r.0) [
      | inl e ↦
          let h = start_each-Keeps net proto rest r.1 in
          rw (e, start_each) (h.0 ∙ k.0, h.1 ∙ k.1, h.2 ∙ k.2, h.3 ∙ k.3)
      | inr (x, e) ↦ rw (e, start_each) k
    ]

start_all-Keeps :
    (net : Net) (proto : String) (m : Targets) (pm : ProxyManager)
    → Keeps pm (start_all net proto m pm).1
unfolding start_all
start_all-Keeps net proto [] pm = (refl, refl, refl, refl)
start_all-Keeps net proto ((ip, t) ∷ m) pm =
    let r = start_each net proto t pm in
    let k = start_each-Keeps net proto t pm in
    elim (Option-cases r.0) [
      | inl e ↦
          let h = start_all-Keeps net proto m r.1 in
          rw (e, start_all) (h.0 ∙ k.0, h.1 ∙ k.1, h.2 ∙ k.2, h.3 ∙ k.3)
      | inr (x, e) ↦ rw (e, start_all) k
    ]

start_rest-failed :
    (net : Net) (pm : ProxyManager)
    → pm.running ≡ false
    → is_some (start_rest net pm).0 ≡ true
    → (start_rest net pm).1.running ≡ false
unfolding start_rest
start_rest-failed net pm h f =
    let r = start_all net "udp" pm.udp_targets pm in
    let k = start_all-Keeps net "udp" pm.udp_targets pm in
    elim (Option-cases r.0) [
      | inl e ↦ absurd (ground (arith, e, f))
      | inr (x, e) ↦ rw (e, start_rest) (k.0 ∙ h)
    ]

start-start_rest :
    (net : Net) (pm : ProxyManager)
    → pm.running ≡ false
    → (start_all net "tcp" pm.tcp_targets pm).0 ≡ none
    → start net pm ≡ start_rest net (start_all net "tcp" pm.tcp_targets pm).1
unfolding start
start-start_rest net pm h e = rw (e, h, start) refl

start-tcp_failed :
    (net : Net) (pm : ProxyManager) (x : ProxyError)
    → pm.running ≡ false
    → (start_all net "tcp" pm.tcp_targets pm).0 ≡ some x
    → start net pm ≡ (some x, (start_all net "tcp" pm.tcp_targets pm).1)
unfolding start
start-tcp_failed net pm x h e = rw (e, h, start) refl

start_running : (net : Net) (pm : ProxyManager) → pm.running ≡ true → (start net pm).0 ≡ none
unfolding start
start_running net pm h = rw (h, start) refl

start-failed :
    (net : Net) (pm : ProxyManager)
    → is_some (start net pm).0 ≡ true
    → (start net pm).1.running ≡ false
unfolding start
start-failed net pm f =
    let r = start_all net "tcp" pm.tcp_targets pm in
    let k = start_all-Keeps net "tcp" pm.tcp_targets pm in
    elim (Bool-cases pm.running) [
      | inl h ↦ absurd (cc (start_running net pm h, f))
      | inr h ↦ elim (Option-cases r.0) [
        | inl e ↦
            let eq = start-start_rest net pm h e in
            ap (λ x. x.1.running) eq
            ∙ start_rest-failed net r.1 (k.0 ∙ h) (sym (ap (λ x. is_some x.0) eq) ∙ f)
        | inr (x, e) ↦ ap (λ y. y.1.running) (start-tcp_failed net pm x h e) ∙ k.0 ∙ h
      ]
    ]

-- After a start that failed, stopping does nothing: the listeners that the start opened, before the
-- target that failed, stay open.
pub stop-start_failed :
    (net : Net) (pm : ProxyManager)
    → is_some (start net pm).0 ≡ true
    → stop (start net pm).1 ≡ (start net pm).1
unfolding stop
stop-start_failed net pm f = rw (start-failed net pm f, stop) refl

ports-append : (a b : List Listener) → ports (a ++ b) ≡ ports a ++ ports b
ports-append [] b = refl
ports-append (l ∷ a) b = ap (◌∷◌ l.port) (ports-append a b)

-- what the manager listens on for a protocol
abbrev pub open_on : String → ProxyManager → List ℤ
open_on proto pm = if proto == "tcp" then ports pm.listeners else ports pm.udp_conns

-- a protocol and the other one
data IsProto : String → String → Type 0 where
  tcp : IsProto "tcp" "udp"
  udp : IsProto "udp" "tcp"

-- the ports of a protocol that others listen on
abbrev pub taken_on : String → Net → List ℤ
taken_on proto net = if proto == "tcp" then net.taken_tcp else net.taken_udp

-- Ports to listen on one after another: none is taken, and none is used or comes twice.
abbrev pub AreFree : List ℤ → List ℤ → List ℤ → Type 0
AreFree taken used [] = Unit
AreFree taken used (port ∷ more) =
    IsPort port
    × (elem port used ≡ false)
    × (elem port taken ≡ false)
    × AreFree taken (used ++ port ∷ []) more

AreFree-split :
    (taken used a b : List ℤ)
    → AreFree taken used (a ++ b)
    → AreFree taken used a × AreFree taken (used ++ a) b
AreFree-split taken used [] b h = (tt, subst (λ u. AreFree taken u b) (sym (append_nil used)) h)
AreFree-split taken used (p ∷ a) b h =
    let (first, rest) = AreFree-split taken (used ++ p ∷ []) a b h.3 in
    ((h.0, h.1, h.2, first), subst (λ u. AreFree taken u b) (append_assoc used (p ∷ []) a) rest)

-- what a successful start of targets at some ports does
abbrev Opens : String → String → List ℤ → ProxyManager → Option ProxyError × ProxyManager → Type 0
Opens proto other new pm r =
    (r.0 ≡ none)
    × (open_on proto r.1 ≡ open_on proto pm ++ new)
    × (open_on other r.1 ≡ open_on other pm)

start_target-Opens :
    {proto other : String}
    → IsProto proto other
    → (net : Net) (port : ℤ) (target : Text) (pm : ProxyManager) → is_backed pm ≡ true
    → AreFree (taken_on proto net) (open_on proto pm) (port ∷ [])
    → Opens proto other (port ∷ []) pm (start_target net proto port target pm)
unfolding start_target start_tcp start_udp
start_target-Opens IsProto.tcp net port target pm b free =
    rw (b, net.listen_tcp-free (ports pm.listeners) port free.0 free.1 free.2, start_tcp)
      (
        refl,
        ports-append pm.listeners (record { id = pm.next; port = port; target_addr = target } ∷ []),
        refl,
      )
start_target-Opens IsProto.udp net port target pm b free =
    rw (b, net.listen_udp-free (ports pm.udp_conns) port free.0 free.1 free.2, start_udp)
      (
        refl,
        ports-append pm.udp_conns (record { id = pm.next; port = port; target_addr = target } ∷ []),
        refl,
      )

start_each-Opens :
    {proto other : String}
    → IsProto proto other
    → (net : Net) (t : GoMap ℤ Text) (pm : ProxyManager) → is_backed pm ≡ true
    → AreFree (taken_on proto net) (open_on proto pm) (keys t)
    → Opens proto other (keys t) pm (start_each net proto t pm)
unfolding start_each
start_each-Opens {proto} {other} p net [] pm b free =
    (refl, sym (append_nil (open_on proto pm)), refl)
start_each-Opens {proto} {other} p net ((port, target) ∷ rest) pm b free =
    let r = start_target net proto port target pm in
    let o = start_target-Opens p net port target pm b (free.0, free.1, free.2, tt) in
    let k = start_target-Keeps net proto port target pm in
    let free' = subst (λ u. AreFree (taken_on proto net) u (keys rest)) (sym o.1) free.3 in
    let h = start_each-Opens p net rest r.1 (k.3 ∙ b) free' in
    rw (o.0, start_each)
      (
        h.0,
        h.1
            ∙ ap (λ x. x ++ keys rest) o.1
            ∙ append_assoc (open_on proto pm) (port ∷ []) (keys rest),
        h.2 ∙ o.2,
      )

start_all-Opens :
    {proto other : String}
    → IsProto proto other
    → (net : Net) (m : Targets) (pm : ProxyManager) → is_backed pm ≡ true
    → AreFree (taken_on proto net) (open_on proto pm) (all_ports m)
    → Opens proto other (all_ports m) pm (start_all net proto m pm)
unfolding start_all
start_all-Opens {proto} {other} p net [] pm b free =
    (refl, sym (append_nil (open_on proto pm)), refl)
start_all-Opens {proto} {other} p net ((ip, t) ∷ m) pm b free =
    let taken = taken_on proto net in
    let (first, later) = AreFree-split taken (open_on proto pm) (keys t) (all_ports m) free in
    let r = start_each net proto t pm in
    let o = start_each-Opens p net t pm b first in
    let k = start_each-Keeps net proto t pm in
    let free' = subst (λ u. AreFree taken u (all_ports m)) (sym o.1) later in
    let h = start_all-Opens p net m r.1 (k.3 ∙ b) free' in
    rw (o.0, start_all)
      (
        h.0,
        h.1
            ∙ ap (λ x. x ++ all_ports m) o.1
            ∙ append_assoc (open_on proto pm) (keys t) (all_ports m),
        h.2 ∙ o.2,
      )

start_rest-done :
    (net : Net) (pm : ProxyManager)
    → (start_all net "udp" pm.udp_targets pm).0 ≡ none
    → let r = start_all net "udp" pm.udp_targets pm in
      ((start_rest net pm).0 ≡ none)
      × ((start_rest net pm).1.running ≡ true)
      × (ports (start_rest net pm).1.listeners ≡ ports r.1.listeners)
      × (ports (start_rest net pm).1.udp_conns ≡ ports r.1.udp_conns)
unfolding start_rest
start_rest-done net pm e = rw (e, start_rest) (refl, refl, refl, refl)

-- Where there is something to listen on, and the targets of a stopped manager have ports from 1 to
-- 65535, no two of one protocol the same, on which neither the manager nor another listens for the
-- protocol: it starts without an error, is then running, and listens on the ports that it listened on
-- before followed by exactly those of its targets, TCP and UDP each.
pub start-listens :
    (net : Net) (pm : ProxyManager)
    → pm.running ≡ false
    → is_backed pm ≡ true
    → AreFree net.taken_tcp (ports pm.listeners) (all_ports pm.tcp_targets)
    → AreFree net.taken_udp (ports pm.udp_conns) (all_ports pm.udp_targets)
    → ((start net pm).0 ≡ none)
      × ((start net pm).1.running ≡ true)
      × (ports (start net pm).1.listeners ≡ ports pm.listeners ++ all_ports pm.tcp_targets)
      × (ports (start net pm).1.udp_conns ≡ ports pm.udp_conns ++ all_ports pm.udp_targets)
start-listens net pm h b tcp_free udp_free =
    let r = start_all net "tcp" pm.tcp_targets pm in
    let k = start_all-Keeps net "tcp" pm.tcp_targets pm in
    let o = start_all-Opens IsProto.tcp net pm.tcp_targets pm b tcp_free in
    let free' : AreFree net.taken_udp (ports r.1.udp_conns) (all_ports r.1.udp_targets) =
      rw (o.2, k.2) udp_free in
    let u = start_all-Opens IsProto.udp net r.1.udp_targets r.1 (k.3 ∙ b) free' in
    let eq = start-start_rest net pm h o.0 in
    let rest = start_rest-done net r.1 u.0 in
    (
      ap (λ x. x.0) eq ∙ rest.0,
      ap (λ x. x.1.running) eq ∙ rest.1,
      ap (λ x. ports x.1.listeners) eq ∙ rest.2 ∙ u.2 ∙ o.1,
      ap (λ x. ports x.1.udp_conns) eq
          ∙ rest.3
          ∙ u.1
          ∙ ap (λ x. x ++ all_ports r.1.udp_targets) o.2
          ∙ ap (λ x. ports pm.udp_conns ++ all_ports x) k.2,
    )
