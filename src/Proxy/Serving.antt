-- ===== src/Proxy/Serving.antt =====
-- proxy/manager.go: the listeners after a target is added to a running manager or removed.
use newt.Prelude.{
  ◌≡◌, refl, String, true, false, Option, none, some, List, [], ◌∷◌, ◌++◌, ℤ, int_eq, int_beq_iff,
  string_eq, ◌==◌, if◌then◌else◌, arith, Option-cases, Bool-cases, inl, inr, ◌⊎◌,
}
use newt.Prelude.GoMap.{elem, lookup}
use newt.HostPort.{Text}
use newt.Proxy.{
  Listener, ProxyManager, Net, IsPort, ports, is_backed, add_target, remove_target, start_target,
  start_tcp, start_udp, without_port,
}

-- What the handler of the open listener on a port forwards to.
abbrev pub served : ℤ → List Listener → Option Text
served k [] = none
served k (l ∷ ls) = if l.port == k then some l.target_addr else served k ls

-- No two listeners have one port.
abbrev pub AreApart : List Listener → Type 0
AreApart [] = Unit
AreApart (l ∷ ls) = (elem l.port (ports ls) ≡ false) × AreApart ls

pub served-absent : (k : ℤ) (ls : List Listener) → served k ls ≡ none → elem k (ports ls) ≡ false
served-absent k [] h = refl
served-absent k (l ∷ ls) h = ground (arith, served-absent k ls)

absent-served : (k : ℤ) (ls : List Listener) → elem k (ports ls) ≡ false → served k ls ≡ none
absent-served k [] h = refl
absent-served k (l ∷ ls) h = ground (arith, absent-served k ls)

elem-without_port :
    (port k : ℤ) (ls : List Listener)
    → elem k (ports ls) ≡ false
    → elem k (ports (without_port port ls)) ≡ false
unfolding without_port
elem-without_port port k [] h = refl
elem-without_port port k (l ∷ ls) h = ground (arith, elem-without_port port k ls)

pub AreApart-without_port :
    (port : ℤ) (ls : List Listener) → AreApart ls → AreApart (without_port port ls)
unfolding without_port
AreApart-without_port port [] h = tt
AreApart-without_port port (l ∷ ls) h = elim (Bool-cases (l.port == port)) [
  | inl e ↦ rw (e, without_port) h.1
  | inr e ↦
      rw (e, without_port) (elem-without_port port l.port ls h.0, AreApart-without_port port ls h.1)
]

pub served-without_port :
    (port k : ℤ) (ls : List Listener)
    → AreApart ls
    → served k (without_port port ls) ≡ (if port == k then none else served k ls)
unfolding without_port
served-without_port port k [] h = ground arith
served-without_port port k (l ∷ ls) h = ground (
  arith,
  served-without_port port k ls h.1,
  absent-served l.port ls h.0,
  int_beq_iff l.port port,
  int_beq_iff l.port k,
  int_beq_iff port k,
)

pub served-append :
    (k : ℤ) (ls : List Listener) (l : Listener)
    → elem l.port (ports ls) ≡ false
    → served k (ls ++ l ∷ []) ≡ (if l.port == k then some l.target_addr else served k ls)
served-append k [] l h = refl
served-append k (m ∷ ls) l h = ground (
  arith,
  served-append k ls l,
  int_beq_iff m.port l.port,
  int_beq_iff l.port k,
  int_beq_iff m.port k,
)

elem-append :
    (k : ℤ) (ls : List Listener) (l : Listener)
    → (l.port == k) ≡ false
    → elem k (ports ls) ≡ false
    → elem k (ports (ls ++ l ∷ [])) ≡ false
elem-append k [] l other h = ground arith
elem-append k (m ∷ ls) l other h = ground (arith, elem-append k ls l)

pub AreApart-append :
    (ls : List Listener) (l : Listener)
    → AreApart ls
    → elem l.port (ports ls) ≡ false
    → AreApart (ls ++ l ∷ [])
AreApart-append [] l h new = (refl, tt)
AreApart-append (m ∷ ls) l h new = (
  elem-append m.port ls l (ground (arith, int_beq_iff m.port l.port, int_beq_iff l.port m.port))
      h.0,
  AreApart-append ls l h.1 (ground arith),
)

-- A removal closes the listener of the port, or finds nothing and changes nothing.
pub remove_target-listeners :
    (ip : String) (port : ℤ) (pm : ProxyManager)
    → let tcp = (remove_target "tcp" ip port pm).1 in
      let udp = (remove_target "udp" ip port pm).1 in
      ((tcp ≡ pm) ⊎ (tcp.listeners ≡ without_port port pm.listeners))
      × ((udp ≡ pm) ⊎ (udp.udp_conns ≡ without_port port pm.udp_conns))
unfolding remove_target
remove_target-listeners ip port pm = (
  elim (Option-cases (lookup ip pm.tcp_targets)) [
    | inl e ↦ inl (ground arith)
    | inr (t, e) ↦ inr (ground arith)
  ],
  elim (Option-cases (lookup ip pm.udp_targets)) [
    | inl e ↦ inl (ground arith)
    | inr (t, e) ↦ inr (ground arith)
  ],
)

pub remove_target-rest :
    (ip : String) (port : ℤ) (pm : ProxyManager)
    → let tcp = (remove_target "tcp" ip port pm).1 in
      let udp = (remove_target "udp" ip port pm).1 in
      ((tcp.running ≡ pm.running) × (is_backed tcp ≡ is_backed pm) × (tcp.udp_conns ≡ pm.udp_conns))
      × ((udp.running ≡ pm.running)
          × (is_backed udp ≡ is_backed pm)
          × (udp.listeners ≡ pm.listeners))
unfolding remove_target
remove_target-rest ip port pm = (ground arith, ground arith)

-- An addition to a running manager opens a listener on the port, where it is free.
pub add_target-tcp_listeners :
    (net : Net) (ip : String) (port : ℤ) (t : Text) (pm : ProxyManager)
    → pm.running ≡ true
    → is_backed pm ≡ true
    → IsPort port
    → elem port (ports pm.listeners) ≡ false
    → elem port net.taken_tcp ≡ false
    → let pm' = (add_target net "tcp" ip port t pm).1 in
      (pm'.listeners ≡ pm.listeners ++ record { id = pm.next; port = port; target_addr = t } ∷ [])
      × (pm'.running ≡ true)
      × (is_backed pm' ≡ true)
      × (pm'.udp_conns ≡ pm.udp_conns)
unfolding add_target start_target start_tcp
add_target-tcp_listeners net ip port t pm run back is_port new free =
    let opens = net.listen_tcp-free (ports pm.listeners) port is_port new free in ground arith

pub add_target-udp_listeners :
    (net : Net) (ip : String) (port : ℤ) (t : Text) (pm : ProxyManager)
    → pm.running ≡ true
    → is_backed pm ≡ true
    → IsPort port
    → elem port (ports pm.udp_conns) ≡ false
    → elem port net.taken_udp ≡ false
    → let pm' = (add_target net "udp" ip port t pm).1 in
      (pm'.udp_conns ≡ pm.udp_conns ++ record { id = pm.next; port = port; target_addr = t } ∷ [])
      × (pm'.running ≡ true)
      × (is_backed pm' ≡ true)
      × (pm'.listeners ≡ pm.listeners)
unfolding add_target start_target start_udp
add_target-udp_listeners net ip port t pm run back is_port new free =
    let opens = net.listen_udp-free (ports pm.udp_conns) port is_port new free in ground arith
