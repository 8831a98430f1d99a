-- ===== src/SharedBind/Receiver.antt =====
-- bind/shared_bind.go: `makeReceiveSocket`, the receive function that waits for a new socket while
-- the bind is rebound. Waking is a call of `Broadcast`, which only `Rebind` makes.
use newt.Prelude.{
  ℕ, ◌≡◌, ◌≢◌, refl, Bool, true, false, none, some, List, [], ◌∷◌, arith, ◌&&◌, not, if◌then◌else◌,
}
use newt.SharedBind.{
  SharedBind, close_connection, release, rebind, close_socket, new_bind, set_netstack_conn,
  set_magic_response_callback, clear_netstack_conn, inject_packet, add_ref,
}
use newt.SharedBind.Lifecycle.{Call, run, run_all, IsSound, new_bind-IsSound}

pub data Receiver : Type 0 where
  -- at the head of the loop
  looping : Receiver
  -- reading from a socket
  reading : ℕ → Receiver
  -- in `rebindingCond.Wait`
  waiting : Receiver
  -- returned `net.ErrClosed`
  stopped : Receiver
  -- returned what was read, or the error of the socket
  returned : Receiver

-- `for b.rebinding && !b.closed.Load()`
unfoldable pub await : SharedBind → Receiver
await b =
    if b.rebinding && not b.is_closed
    then Receiver.waiting
    else if b.is_closed
    then Receiver.stopped
    else Receiver.looping

-- the receive function up to its next wait, read or return; `failed` tells of the read it is in
-- whether the socket returned an error
unfoldable pub advance : Bool → SharedBind → Receiver → Receiver
unfolding await
advance failed b Receiver.looping =
    if b.is_closed
    then Receiver.stopped
    else elim b.udp_conn [ none ↦ await b | some c ↦ Receiver.reading c ]
advance failed b (Receiver.reading c) = if failed && b.rebinding then await b else Receiver.returned
advance failed b Receiver.waiting = Receiver.waiting
advance failed b Receiver.stopped = Receiver.stopped
advance failed b Receiver.returned = Receiver.returned

-- a receiver that `Broadcast` wakes
unfoldable pub wake : SharedBind → Receiver → Receiver
unfolding await
wake b Receiver.waiting = await b
wake b r = r

-- a call broadcasts where it is a `Rebind` that succeeds
unfoldable pub broadcasts : Call → SharedBind → Bool
broadcasts (Call.replace (some c)) b = not b.is_closed
broadcasts _ b = false

pub data Event : Type 0 where
  call : Call → Event
  step : Bool → Event

unfoldable pub handle : Event → SharedBind × Receiver → SharedBind × Receiver
unfolding run advance wake broadcasts
handle (Event.call c) (b, r) = let b' = run c b in (b', if broadcasts c b then wake b' r else r)
handle (Event.step failed) (b, r) = (b, advance failed b r)

unfoldable pub handle_all : List Event → SharedBind × Receiver → SharedBind × Receiver
unfolding handle
handle_all [] s = s
handle_all (e ∷ es) s = handle_all es (handle e s)

-- closed for good, and waiting
abbrev IsStuck : SharedBind × Receiver → Type 0
IsStuck (b, r) = (b.is_closed ≡ true) × (r ≡ Receiver.waiting)

release-closed : (b : SharedBind) → b.is_closed ≡ true → (release b).1.is_closed ≡ true
unfolding release close_connection
release-closed b h = ground arith

run-closed : (c : Call) (b : SharedBind) → b.is_closed ≡ true → (run c b).is_closed ≡ true
unfolding run set_netstack_conn set_magic_response_callback clear_netstack_conn inject_packet
    add_ref close_socket rebind
run-closed (Call.set_conn c) b h = h
run-closed Call.clear_conn b h = h
run-closed (Call.inject p a) b h = ground arith
run-closed (Call.set_callback given) b h = h
run-closed Call.ref b h = h
run-closed Call.unref b h = release-closed b h
run-closed Call.stop_socket b h = ground arith
run-closed (Call.replace none) b h = h
run-closed (Call.replace (some (c, p))) b h = ground arith

broadcasts-closed : (c : Call) (b : SharedBind) → b.is_closed ≡ true → broadcasts c b ≡ false
unfolding broadcasts
broadcasts-closed (Call.replace (some c)) b h = rw (h) refl
broadcasts-closed (Call.replace none) b h = refl
broadcasts-closed (Call.set_conn c) b h = refl
broadcasts-closed Call.clear_conn b h = refl
broadcasts-closed (Call.inject p a) b h = refl
broadcasts-closed (Call.set_callback given) b h = refl
broadcasts-closed Call.ref b h = refl
broadcasts-closed Call.unref b h = refl
broadcasts-closed Call.stop_socket b h = refl

handle-IsStuck : (e : Event) (s : SharedBind × Receiver) → IsStuck s → IsStuck (handle e s)
unfolding handle
handle-IsStuck (Event.call c) (b, r) (h, w) = (run-closed c b h, rw (broadcasts-closed c b h) w)
handle-IsStuck (Event.step failed) (b, r) (h, w) = (h, rw (w) refl)

handle_all-IsStuck :
    (es : List Event) (s : SharedBind × Receiver) → IsStuck s → IsStuck (handle_all es s)
unfolding handle_all
handle_all-IsStuck [] s h = h
handle_all-IsStuck (e ∷ es) s h = handle_all-IsStuck es (handle e s) (handle-IsStuck e s h)

-- A receiver that waits for a new socket while the last reference to the bind is released waits for
-- ever: whatever happens afterwards, it neither reads nor returns.
pub release-strands :
    (b : SharedBind)
    → b.ref_count ≡ 1
    → (es : List Event) → (handle_all es ((release b).1, Receiver.waiting)).1 ≡ Receiver.waiting
unfolding release close_connection
release-strands b one es =
    (handle_all-IsStuck es ((release b).1, Receiver.waiting) (ground arith, refl)).1

advance_sound :
    (failed : Bool) (b : SharedBind)
    → IsSound b
    → advance failed b Receiver.looping ≢ Receiver.looping
unfolding advance await
advance_sound failed b s h = ground arith

-- Whatever calls a bind receives, the receive function does not spin: from the head of its loop it
-- comes to a read, to a wait or to a return.
pub advance-leaves_loop :
    (conn port : ℕ) (cs : List Call) (failed : Bool)
    → advance failed (run_all cs (new_bind conn port)) Receiver.looping ≢ Receiver.looping
advance-leaves_loop conn port cs failed =
    advance_sound failed (run_all cs (new_bind conn port)) (new_bind-IsSound conn port cs)
