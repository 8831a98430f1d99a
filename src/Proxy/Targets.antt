-- ===== src/Proxy/Targets.antt =====
-- proxy/manager.go: what the calls do to the targets.
use newt.Prelude.{
  ◌≡◌, refl, sym, ◌∙◌, ap, String, Bool, ◌&&◌, Option, none, some, [], ℤ, ◌==◌, string_eq, int_eq,
  if◌then◌else◌, from_option, inl, inr, Bool-cases, Option-cases, arith, str_beq_iff,
}
use newt.Prelude.GoMap.{GoMap, lookup, insert, delete, lookup-insert, lookup-delete}
use newt.HostPort.{Text}
use newt.Proxy.{
  Targets, ProxyManager, Net, put, add_target, remove_target, start_target, start_tcp, start_udp,
}

-- the address that a port of a listening IP is forwarded to
abbrev pub target_of : String → ℤ → Targets → Option Text
target_of ip port m = lookup port (from_option [] (lookup ip m))

abbrev pub is_same : String → ℤ → String → ℤ → Bool
is_same ip port ip' port' = (ip == ip') && (port == port')

target_of-insert :
    (ip : String) (v : GoMap ℤ Text) (m : Targets) (ip' : String) (port' : ℤ)
    → target_of ip' port' (insert ip v m)
      ≡ (if ip == ip' then lookup port' v else target_of ip' port' m)
target_of-insert ip v m ip' port' = elim (Bool-cases (ip == ip')) [
  | inl e ↦ ap (λ x. lookup port' (from_option [] x)) (lookup-insert ip ip' v m) ∙ rw (e) refl
  | inr e ↦ ap (λ x. lookup port' (from_option [] x)) (lookup-insert ip ip' v m) ∙ rw (e) refl
]

target_of-put :
    (ip : String) (port : ℤ) (target : Text) (m : Targets) (ip' : String) (port' : ℤ)
    → target_of ip' port' (put ip port target m)
      ≡ (if is_same ip port ip' port' then some target else target_of ip' port' m)
target_of-put ip port target m ip' port' =
    let inner = from_option [] (lookup ip m) in
    target_of-insert ip (insert port target inner) m ip' port' ∙ elim (Bool-cases (ip == ip')) [
      | inl e ↦ rw (e) (
          lookup-insert port port' target inner
          ∙ ap (λ x. if port == port' then some target else target_of x port' m)
              ((str_beq_iff ip ip').0 e))
      | inr e ↦ rw (e) refl
    ]

target_of-take :
    (ip : String) (port : ℤ) (targets : GoMap ℤ Text) (m : Targets) (ip' : String) (port' : ℤ)
    → lookup ip m ≡ some targets
    → target_of ip' port' (insert ip (delete port targets) m)
      ≡ (if is_same ip port ip' port' then none else target_of ip' port' m)
target_of-take ip port targets m ip' port' here =
    target_of-insert ip (delete port targets) m ip' port' ∙ elim (Bool-cases (ip == ip')) [
      | inl e ↦
          let there : targets ≡ from_option [] (lookup ip' m) =
            ap (from_option []) (sym here)
            ∙ ap (λ x. from_option [] (lookup x m)) ((str_beq_iff ip ip').0 e) in
          rw (e) (
            lookup-delete port port' targets
            ∙ ap (λ x. if port == port' then none else lookup port' x) there)
      | inr e ↦ rw (e) refl
    ]

target_of-missing :
    (ip : String) (port : ℤ) (m : Targets) (ip' : String) (port' : ℤ)
    → lookup ip m ≡ none
    → target_of ip' port' m ≡ (if is_same ip port ip' port' then none else target_of ip' port' m)
target_of-missing ip port m ip' port' here = elim (Bool-cases (ip == ip')) [
  | inl e ↦
      let gone : target_of ip' port' m ≡ none =
        ap (λ x. target_of x port' m) (sym ((str_beq_iff ip ip').0 e))
        ∙ ap (λ x. lookup port' (from_option [] x)) here in
      elim (Bool-cases (port == port')) [ inl e' ↦ rw (e, e') gone | inr e' ↦ rw (e, e') refl ]
  | inr e ↦ rw (e) refl
]

-- starting a target keeps the targets
pub start_target-targets :
    (net : Net) (proto : String) (port : ℤ) (target : Text) (pm : ProxyManager)
    → ((start_target net proto port target pm).1.tcp_targets ≡ pm.tcp_targets)
      × ((start_target net proto port target pm).1.udp_targets ≡ pm.udp_targets)
      × ((start_target net proto port target pm).1.running ≡ pm.running)
unfolding start_target start_tcp start_udp
start_target-targets net proto port target pm = ground arith

add_target-tcp :
    (net : Net) (ip : String) (port : ℤ) (target : Text) (pm : ProxyManager)
    → ((add_target net "tcp" ip port target pm).1.tcp_targets ≡ put ip port target pm.tcp_targets)
      × ((add_target net "tcp" ip port target pm).1.udp_targets ≡ pm.udp_targets)
unfolding add_target start_target start_tcp start_udp
add_target-tcp net ip port target pm = ground arith

add_target-udp :
    (net : Net) (ip : String) (port : ℤ) (target : Text) (pm : ProxyManager)
    → ((add_target net "udp" ip port target pm).1.udp_targets ≡ put ip port target pm.udp_targets)
      × ((add_target net "udp" ip port target pm).1.tcp_targets ≡ pm.tcp_targets)
unfolding add_target start_target start_tcp start_udp
add_target-udp net ip port target pm = ground arith

-- After a target is added, its port is forwarded to it and all other targets of the protocol are as
-- before, and so are those of the other protocol, whether or not a listener could be opened for it.
pub add_target-target_of :
    (net : Net) (ip : String) (port : ℤ) (target : Text) (pm : ProxyManager) (ip' : String)
    (port' : ℤ)
    → let tcp = (add_target net "tcp" ip port target pm).1 in
      let udp = (add_target net "udp" ip port target pm).1 in
      (target_of ip' port' tcp.tcp_targets
        ≡ (if is_same ip port ip' port' then some target else target_of ip' port' pm.tcp_targets))
      × (target_of ip' port' udp.udp_targets
          ≡ (if is_same ip port ip' port' then some target else target_of ip' port' pm.udp_targets))
      × (tcp.udp_targets ≡ pm.udp_targets)
      × (udp.tcp_targets ≡ pm.tcp_targets)
add_target-target_of net ip port target pm ip' port' =
    let t = add_target-tcp net ip port target pm in
    let u = add_target-udp net ip port target pm in
    (
      ap (target_of ip' port') t.0 ∙ target_of-put ip port target pm.tcp_targets ip' port',
      ap (target_of ip' port') u.0 ∙ target_of-put ip port target pm.udp_targets ip' port',
      t.1,
      u.1,
    )

-- After a target is removed, or was not found, its port is not forwarded, and all other targets of
-- the protocol are as before.
pub remove_target-target_of :
    (ip : String) (port : ℤ) (pm : ProxyManager) (ip' : String) (port' : ℤ)
    → (target_of ip' port' (remove_target "tcp" ip port pm).1.tcp_targets
        ≡ (if is_same ip port ip' port' then none else target_of ip' port' pm.tcp_targets))
      × (target_of ip' port' (remove_target "udp" ip port pm).1.udp_targets
          ≡ (if is_same ip port ip' port' then none else target_of ip' port' pm.udp_targets))
unfolding remove_target
remove_target-target_of ip port pm ip' port' = (
  elim (Option-cases (lookup ip pm.tcp_targets)) [
    | inl e ↦ rw (e, remove_target) (target_of-missing ip port pm.tcp_targets ip' port' e)
    | inr (t, e) ↦ rw (e, remove_target) (target_of-take ip port t pm.tcp_targets ip' port' e)
  ],
  elim (Option-cases (lookup ip pm.udp_targets)) [
    | inl e ↦ rw (e, remove_target) (target_of-missing ip port pm.udp_targets ip' port' e)
    | inr (t, e) ↦ rw (e, remove_target) (target_of-take ip port t pm.udp_targets ip' port' e)
  ],
)
