-- ===== src/SharedBind/Tests.antt =====
-- bind/shared_bind.go: runs of a bind.
use newt.Prelude.{
  ℕ, zero, suc, arith, length, ◌==◌, nat_eq, if◌then◌else◌, ◌≡◌, ◌≢◌, refl, true, false, none, some,
  List, [], ◌∷◌, ◌++◌, map,
}
use newt.HostPort.{Text, text}
use newt.SharedBind.{AddrPort, SharedBind, new_bind, release, unmap, is_valid, inject_packet}
use newt.SharedBind.Lifecycle.{Call, run_all, IsSound, new_bind-IsSound}
use newt.SharedBind.Receiver.{
  Receiver, Event, advance, handle_all, release-strands, advance-leaves_loop,
}
use newt.SharedBind.Batch.{Message, Slots, compact, read_out, is_kept}
use newt.SharedBind.Batch.Filtered.{compact-kept}
use newt.SharedBind.Routing.{Endpoint, send, send-inject_packet, handle_magic_packet, test_request}

abbrev address : AddrPort
address = record { addr = 10 ∷ 0 ∷ 0 ∷ 1 ∷ []; port = 51820 }

abbrev calls : List Call
calls = Call.stop_socket ∷ Call.replace (some (2, 51820)) ∷ Call.ref ∷ Call.unref ∷ Call.unref ∷ []

new_bind-IsSound_example : IsSound (run_all calls (new_bind 1 51820))
new_bind-IsSound_example = new_bind-IsSound 1 51820 calls

abbrev rebinding_bind : SharedBind
rebinding_bind = record {
  udp_conn = none;
  ref_count = 1;
  is_closed = false;
  port = 51820;
  netstack_packets = [];
  netstack_conn = some 9;
  netstack_endpoints = [];
  rebinding = true;
  has_callback = true;
  close_signals = 0;
  closed_sockets = 1 ∷ [];
}

abbrev events : List Event
events = Event.call (Call.replace (some (2, 51820))) ∷ Event.step false ∷ []

release-strands_example :
    (handle_all events ((release rebinding_bind).1, Receiver.waiting)).1 ≡ Receiver.waiting
release-strands_example = release-strands rebinding_bind refl events

-- without the release the same events let the receiver read from the new socket
rebind_test : (handle_all events (rebinding_bind, Receiver.waiting)).1 ≡ Receiver.reading 2
unfolding handle_all
rebind_test = refl

advance-leaves_loop_example :
    advance false (run_all calls (new_bind 1 51820)) Receiver.looping ≢ Receiver.looping
advance-leaves_loop_example = advance-leaves_loop 1 51820 calls false

abbrev payloads : List Text
payloads = text "one" ∷ text "two" ∷ []

send-inject_packet_example :
    send
      (λ w. true)
      payloads
      (Endpoint.std (unmap address))
      (inject_packet (text "x") address rebinding_bind).1
    ≡ (
      none,
      map
          (λ buf. record { via_netstack = true; conn = 9; sent = buf; to = unmap address })
          payloads,
    )
unfolding unmap is_valid
send-inject_packet_example =
    send-inject_packet (text "x") address rebinding_bind 9 payloads refl refl refl

abbrev bound : SharedBind
bound = record rebinding_bind { udp_conn = some 3; rebinding = false }

abbrev echo : Text
echo = text "12345678"

-- a test request, an empty message and an ordinary one, in buffers of 32 bytes
abbrev pad : ℕ → Text → Text
pad zero s = []
pad (suc k) [] = 0 ∷ pad k []
pad (suc k) (c ∷ s) = c ∷ pad k s

length-pad : (k : ℕ) (s : Text) → length (pad k s) ≡ k
length-pad zero s = refl
length-pad (suc k) [] = omega (arith, length-pad k [])
length-pad (suc k) (c ∷ s) = omega (arith, length-pad k s)

abbrev message : ℕ → Message
message n = record { n = n; from = address }

abbrev slots : Slots
slots = record {
  bufs = λ j. pad 32 (if j == 0 then test_request ++ echo else text "hello");
  sizes = λ j. 0;
  eps = λ j. none;
}

abbrev batch : List Message
batch = message 25 ∷ message 0 ∷ message 5 ∷ []

compact-kept_example :
    read_out (compact bound 0 0 batch slots).0 (compact bound 0 0 batch slots).1
    ≡ (text "hello", some address) ∷ []
unfolding is_kept handle_magic_packet unmap
compact-kept_example = compact-kept 32 bound batch slots (
  omega arith,
  (
    omega arith,
    (omega arith, λ j. length-pad 32 (if j == 0 then test_request ++ echo else text "hello")),
  ),
)
