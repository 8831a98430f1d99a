-- ===== src/SharedBind/Routing.antt =====
-- bind/shared_bind.go: where `Send` sends, and the packets that test a hole punch. The calls of
-- `WriteTo` and `WriteToUDP` are the list of the writes made; whether a write succeeds is a
-- parameter.
use newt.Prelude.{
  ℕ, ◌+◌, ◌*◌, ◌≡◌, refl, ◌∙◌, ap, Bool, true, false, not, ◌&&◌, Option, none, some, List, [], ◌∷◌,
  ◌++◌, arith, leb, length, take, drop, inl, inr, if◌then◌else◌, Bool-cases, map, is_some,
  take_of_length-le,
}
use newt.Prelude.GoMap.{elem}
use newt.HostPort.{Text, text, text_beq}
use newt.SharedBind.{
  AddrPort, addr_eq, addr_beq_iff, SharedBind, BindError, unmap, is_valid, inject_packet,
}

pub data Endpoint : Type 0 where
  -- `*wgConn.StdNetEndpoint`
  std : AddrPort → Endpoint
  -- any other, as its `DstToBytes`
  other : Text → Endpoint

abbrev invalid : AddrPort
invalid = record { addr = []; port = 0 }

abbrev byte_at : ℕ → Text → ℕ
byte_at n bs = elim (drop n bs) [ [] ↦ 0 | x ∷ _ ↦ x ]

-- the port's bytes, the low one first
abbrev port_at : ℕ → Text → ℕ
port_at n bs = byte_at n bs + 256 * byte_at (n + 1) bs

unfoldable pub destination : Endpoint → AddrPort
destination (Endpoint.std a) = a
destination (Endpoint.other bs) =
    if leb 6 (length bs)
    then (if leb 18 (length bs)
        then record { addr = take 16 bs; port = port_at 16 bs }
        else record { addr = take 4 bs; port = port_at 4 bs })
    else invalid

-- a write to the netstack or the socket of a number
pub record Write : Type 0 where
  pub via_netstack : Bool
  pub conn : ℕ
  pub sent : Text
  pub to : AddrPort

-- the loop over the buffers: the first error ends it
unfoldable pub write_each :
    (Write → Bool) → Bool → ℕ → AddrPort → List Text → Option BindError × List Write
write_each ok netstack conn to [] = (none, [])
write_each ok netstack conn to (buf ∷ bufs) =
    let rest = write_each ok netstack conn to bufs in
    let w : Write = record { via_netstack = netstack; conn = conn; sent = buf; to = to } in
    if ok w then (rest.0, w ∷ rest.1) else (some BindError.write_failed, w ∷ [])

unfoldable pub send_socket :
    (Write → Bool) → List Text → AddrPort → SharedBind → Option BindError × List Write
unfolding write_each
send_socket ok bufs to b = elim b.udp_conn [
  | none ↦ (some BindError.closed, [])
  | some c ↦ write_each ok false c to bufs
]

unfoldable pub send :
    (Write → Bool) → List Text → Endpoint → SharedBind → Option BindError × List Write
unfolding destination is_valid send_socket write_each
send ok bufs ep b =
    let to = destination ep in
    if b.is_closed
    then (some BindError.closed, [])
    else if not (is_valid to)
    then (some BindError.no_destination, [])
    else if elem to b.netstack_endpoints
    then elim b.netstack_conn [
      | some c ↦ write_each ok true c to bufs
      | none ↦ send_socket ok bufs to b
    ]
    else send_socket ok bufs to b

-- where every write succeeds, the writes are the buffers in order
write_each-all :
    (netstack : Bool) (conn : ℕ) (to : AddrPort) (bufs : List Text)
    → write_each (λ w. true) netstack conn to bufs ≡ (
      none,
      map (λ buf. record { via_netstack = netstack; conn = conn; sent = buf; to = to }) bufs,
    )
unfolding write_each
write_each-all netstack conn to [] = refl
write_each-all netstack conn to (buf ∷ bufs) = cc (write_each-all netstack conn to bufs)

inject_packet-endpoint :
    (payload : Text) (from : AddrPort) (b : SharedBind)
    → b.is_closed ≡ false
    → ((inject_packet payload from b).1.is_closed ≡ false)
      × (elem (unmap from) (inject_packet payload from b).1.netstack_endpoints ≡ true)
      × ((inject_packet payload from b).1.netstack_conn ≡ b.netstack_conn)
unfolding inject_packet
inject_packet-endpoint payload from b h = ground (arith, addr_beq_iff (unmap from) (unmap from))

-- Once a packet from an address was injected into an open bind with a netstack connection, what is
-- sent to that address, in its unmapped form, goes through that connection, buffer by buffer, even if
-- the packet itself was dropped because the buffer was full.
pub send-inject_packet :
    (payload : Text) (from : AddrPort) (b : SharedBind) (conn : ℕ) (bufs : List Text)
    → b.is_closed ≡ false
    → b.netstack_conn ≡ some conn
    → is_valid (unmap from) ≡ true
    → send (λ w. true) bufs (Endpoint.std (unmap from)) (inject_packet payload from b).1 ≡ (
      none,
      map (λ buf. record { via_netstack = true; conn = conn; sent = buf; to = unmap from }) bufs,
    )
unfolding send destination
send-inject_packet payload from b conn bufs open_now via valid =
    let i = inject_packet-endpoint payload from b open_now in
    rw (i.0, valid, i.1, i.2 ∙ via, send) (write_each-all true conn (unmap from) bufs)

abbrev pub test_request : Text
test_request = text "PANGOLIN_TEST_REQ"

abbrev pub test_response : Text
test_response = text "PANGOLIN_TEST_RSP"

-- `bytes.HasPrefix`
abbrev pub has_prefix : Text → Text → Bool
has_prefix s p = text_beq (take (length p) s) p

unfoldable pub is_magic_packet : Text → Bool
is_magic_packet s =
    if leb 25 (length s) && has_prefix s test_request
    then true
    else leb 25 (length s) && has_prefix s test_response

-- what a magic packet makes the bind do
pub data MagicEffect : Type 0 where
  -- the response is written to the socket
  respond : ℕ → Text → AddrPort → MagicEffect
  call_back : AddrPort → Text → MagicEffect

-- `none` where the packet is not a magic packet
unfoldable pub handle_magic_packet : Text → AddrPort → SharedBind → Option (List MagicEffect)
unfolding unmap
handle_magic_packet s from b =
    if leb 25 (length s) && has_prefix s test_request
    then some (elim b.udp_conn [
      | none ↦ []
      | some c ↦ MagicEffect.respond c (test_response ++ take 8 (drop 17 s)) from ∷ []
    ])
    else if leb 25 (length s) && has_prefix s test_response
    then some (
        if b.has_callback then MagicEffect.call_back (unmap from) (take 8 (drop 17 s)) ∷ [] else [])
    else none

handle_magic_packet-request :
    (echo : Text) (from : AddrPort) (b : SharedBind) (c : ℕ)
    → length echo ≡ 8
    → b.udp_conn ≡ some c
    → handle_magic_packet (test_request ++ echo) from b
      ≡ some (MagicEffect.respond c (test_response ++ echo) from ∷ [])
unfolding handle_magic_packet
handle_magic_packet-request echo from b c h open_now =
    let long : leb 25 (length (test_request ++ echo)) ≡ true = ground (arith, h) in
    rw (long, open_now, take_of_length-le 8 echo (omega (arith, h)), handle_magic_packet) refl

handle_magic_packet-response :
    (echo : Text) (from : AddrPort) (b : SharedBind)
    → length echo ≡ 8
    → b.has_callback ≡ true
    → handle_magic_packet (test_response ++ echo) from b
      ≡ some (MagicEffect.call_back (unmap from) echo ∷ [])
unfolding handle_magic_packet
handle_magic_packet-response echo from b h given =
    let long : leb 25 (length (test_response ++ echo)) ≡ true = ground (arith, h) in
    rw (long, given, take_of_length-le 8 echo (omega (arith, h)), handle_magic_packet) refl

-- the payload of the response, if that is what the effects are
abbrev pub response_of : Option (List MagicEffect) → Text
response_of none = []
response_of (some []) = []
response_of (some (MagicEffect.respond c s a ∷ _)) = s
response_of (some (MagicEffect.call_back a s ∷ _)) = []

-- A test request with eight bytes of data, answered by a bind with a socket, makes the bind that
-- receives the answer and has a callback call it with those eight bytes and the unmapped address of
-- the answer's sender.
pub handle_magic_packet-echo :
    (echo : Text) (from peer : AddrPort) (b b' : SharedBind) (c : ℕ)
    → length echo ≡ 8
    → b.udp_conn ≡ some c
    → b'.has_callback ≡ true
    → handle_magic_packet (response_of (handle_magic_packet (test_request ++ echo) from b)) peer b'
      ≡ some (MagicEffect.call_back (unmap peer) echo ∷ [])
handle_magic_packet-echo echo from peer b b' c h open_now given =
    ap (λ e. handle_magic_packet (response_of e) peer b')
      (handle_magic_packet-request echo from b c h open_now)
    ∙ handle_magic_packet-response echo peer b' h given

-- `IsMagicPacket` holds of exactly the packets that a bind handles itself.
pub is_magic_packet_lem :
    (s : Text) (from : AddrPort) (b : SharedBind)
    → is_magic_packet s ≡ is_some (handle_magic_packet s from b)
unfolding is_magic_packet handle_magic_packet
is_magic_packet_lem s from b = elim (Bool-cases (leb 25 (length s) && has_prefix s test_request)) [
  | inl e ↦ rw (e, is_magic_packet, handle_magic_packet) refl
  | inr e ↦ elim (Bool-cases (leb 25 (length s) && has_prefix s test_response)) [
    | inl e' ↦ rw (e, e', is_magic_packet, handle_magic_packet) refl
    | inr e' ↦ rw (e, e', is_magic_packet, handle_magic_packet) refl
  ]
]
