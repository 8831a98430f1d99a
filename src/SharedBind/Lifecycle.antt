-- ===== src/SharedBind/Lifecycle.antt =====
-- bind/shared_bind.go: the life of the socket of a bind.
use newt.Prelude.{
  ℕ, ◌-◌, ◌≡◌, refl, inl, inr, Bool, true, false, Option, none, some, List, [], ◌∷◌, arith, ◌==◌,
  nat_eq, if◌then◌else◌, Bool-cases,
}
use newt.HostPort.{Text}
use newt.SharedBind.{
  AddrPort, SharedBind, new_bind, set_netstack_conn, set_magic_response_callback,
  clear_netstack_conn, inject_packet, add_ref, close_connection, release, close_socket, rebind,
}

-- A call of the bind. The caller of `Rebind` passes a connection that it opened.
pub data Call : Type 0 where
  set_conn : ℕ → Call
  clear_conn : Call
  inject : Text → AddrPort → Call
  set_callback : Bool → Call
  ref : Call
  unref : Call
  stop_socket : Call
  replace : Option (ℕ × ℕ) → Call

unfoldable pub run : Call → SharedBind → SharedBind
unfolding set_netstack_conn set_magic_response_callback clear_netstack_conn inject_packet add_ref
    release close_socket rebind
run (Call.set_conn c) b = set_netstack_conn c b
run Call.clear_conn b = clear_netstack_conn b
run (Call.inject p a) b = (inject_packet p a b).1
run (Call.set_callback given) b = set_magic_response_callback given b
run Call.ref b = add_ref b
run Call.unref b = (release b).1
run Call.stop_socket b = (close_socket b).1.1
run (Call.replace c) b = (rebind c b).1

unfoldable pub run_all : List Call → SharedBind → SharedBind
unfolding run
run_all [] b = b
run_all (c ∷ cs) b = run_all cs (run c b)

-- There is a socket unless the bind is closed or being rebound, a closed bind has none, and the
-- channel that tells the receivers to stop was closed once if the bind is closed and else never.
abbrev pub IsSound : SharedBind → Type 0
IsSound b =
    (b.udp_conn ≡ none → b.is_closed ≡ false → b.rebinding ≡ true)
    × (b.is_closed ≡ true → b.udp_conn ≡ none)
    × (b.close_signals ≡ (if b.is_closed then 1 else 0))

close_connection-IsSound : (b : SharedBind) → IsSound b → IsSound (close_connection b)
unfolding close_connection
close_connection-IsSound b s = ground arith

release-IsSound : (b : SharedBind) → IsSound b → IsSound (release b).1
unfolding release
release-IsSound b s =
    let b' = record b { ref_count = b.ref_count - 1 } in
    elim (Bool-cases (b.ref_count == 0)) [
      | inl e ↦ rw (e, release) s
      | inr e ↦ elim (Bool-cases (b.ref_count - 1 == 0)) [
        | inl e' ↦ rw (e, e', release) (close_connection-IsSound b' s)
        | inr e' ↦ rw (e, e', release) s
      ]
    ]

run-IsSound : (c : Call) (b : SharedBind) → IsSound b → IsSound (run c b)
unfolding run set_netstack_conn set_magic_response_callback clear_netstack_conn inject_packet
    add_ref close_socket rebind
run-IsSound (Call.set_conn c) b s = s
run-IsSound Call.clear_conn b s = s
run-IsSound (Call.inject p a) b s = ground arith
run-IsSound (Call.set_callback given) b s = s
run-IsSound Call.ref b s = s
run-IsSound Call.unref b s = release-IsSound b s
run-IsSound Call.stop_socket b s = ground arith
run-IsSound (Call.replace none) b s = s
run-IsSound (Call.replace (some (c, p))) b s = ground arith

run_all-IsSound : (cs : List Call) (b : SharedBind) → IsSound b → IsSound (run_all cs b)
unfolding run_all
run_all-IsSound [] b s = s
run_all-IsSound (c ∷ cs) b s = run_all-IsSound cs (run c b) (run-IsSound c b s)

-- Whatever calls a bind receives, it has a socket unless it is closed or being rebound, a closed bind
-- has no socket, and `closeChan` was closed exactly once if the bind is closed and else never.
pub new_bind-IsSound : (conn port : ℕ) (cs : List Call) → IsSound (run_all cs (new_bind conn port))
unfolding new_bind
new_bind-IsSound conn port cs =
    run_all-IsSound cs (new_bind conn port) (λ h h'. absurd (cc h), λ h. absurd (cc h), refl)
