-- ===== src/SharedBind.antt =====
-- bind/shared_bind.go: `SharedBind`. A socket is the number of a connection. An address is its bytes,
-- four or sixteen; any other length is the invalid address. `ref_count` stays below 2^31. The
-- channel of injected packets is the list of what it holds.
pub mod Lifecycle
pub mod Receiver
pub mod Routing
pub mod Batch
mod Tests
use newt.Prelude.{
  ℕ, zero, suc, ◌+◌, ◌-◌, ◌*◌, ◌≡◌, ◌↔◌, Bool, true, false, not, ◌&&◌, ◌||◌, Option, none, some,
  List, [], ◌∷◌, ◌++◌, arith, ltb, leb, ◌==◌, Eq, nat_eq, nat_beq, nat_beq_iff, length, take, drop,
  is_some, if◌then◌else◌,
}
use newt.Prelude.GoMap.{elem}
use newt.HostPort.{Text, text, text_beq, text_beq_iff, text_eq}

pub record AddrPort : Type 0 where
  pub addr : Text
  pub port : ℕ

abbrev pub addr_beq : AddrPort → AddrPort → Bool
addr_beq a b = text_beq a.addr b.addr && nat_beq a.port b.port

pub addr_beq_iff : (a b : AddrPort) → (addr_beq a b ≡ true) ↔ (a ≡ b)
addr_beq_iff a b = (
  λ h. ground (arith, text_beq_iff a.addr b.addr, nat_beq_iff a.port b.port),
  λ h. ground (arith, text_beq_iff a.addr b.addr, nat_beq_iff a.port b.port),
)

instance abbrev pub addr_eq : Eq AddrPort
addr_eq = record { beq = addr_beq; beq_iff = addr_beq_iff }

-- ten zeros and two bytes 255: the addresses ::ffff:0:0/96
abbrev mapped_prefix : Text
mapped_prefix = 0 ∷ 0 ∷ 0 ∷ 0 ∷ 0 ∷ 0 ∷ 0 ∷ 0 ∷ 0 ∷ 0 ∷ 255 ∷ 255 ∷ []

-- `Is4In6` and `Unmap`
unfoldable pub unmap : AddrPort → AddrPort
unmap a =
    if (length a.addr == 16) && text_beq (take 12 a.addr) mapped_prefix
    then record a { addr = drop 12 a.addr }
    else a

unfoldable pub is_valid : AddrPort → Bool
is_valid a = (length a.addr == 4) || (length a.addr == 16)

pub record Packet : Type 0 where
  pub payload : Text
  pub endpoint : AddrPort

pub data BindError : Type 0 where
  closed : BindError
  negative_count : BindError
  buffer_full : BindError
  nil_conn : BindError
  no_destination : BindError
  write_failed : BindError

-- the socket, the netstack connection and the endpoints seen from netstack, and the history: how
-- often `closeChan` was closed, and the sockets closed
pub record SharedBind : Type 0 where
  pub udp_conn : Option ℕ
  pub ref_count : ℕ
  pub is_closed : Bool
  pub port : ℕ
  pub netstack_packets : List Packet
  pub netstack_conn : Option ℕ
  pub netstack_endpoints : List AddrPort
  pub rebinding : Bool
  pub has_callback : Bool
  pub close_signals : ℕ
  pub closed_sockets : List ℕ

unfoldable pub new_bind : ℕ → ℕ → SharedBind
new_bind conn port = record {
  udp_conn = some conn;
  ref_count = 1;
  is_closed = false;
  port = port;
  netstack_packets = [];
  netstack_conn = none;
  netstack_endpoints = [];
  rebinding = false;
  has_callback = false;
  close_signals = 0;
  closed_sockets = [];
}

unfoldable pub set_netstack_conn : ℕ → SharedBind → SharedBind
set_netstack_conn conn b = record b { netstack_conn = some conn }

unfoldable pub clear_netstack_conn : SharedBind → SharedBind
clear_netstack_conn b = record b { netstack_conn = none; netstack_endpoints = [] }

unfoldable pub set_magic_response_callback : Bool → SharedBind → SharedBind
set_magic_response_callback given b = record b { has_callback = given }

-- the capacity of the channel
abbrev pub netstack_capacity : ℕ
netstack_capacity = 1024

unfoldable pub inject_packet : Text → AddrPort → SharedBind → Option BindError × SharedBind
unfolding unmap
inject_packet payload from b =
    if b.is_closed
    then (some BindError.closed, b)
    else (let addr = unmap from in
        let b' = record b { netstack_endpoints = addr ∷ b.netstack_endpoints } in
        if ltb (length b.netstack_packets) netstack_capacity
        then (
          none,
          record b' {
            netstack_packets =
                b.netstack_packets ++ (record { payload = payload; endpoint = addr }) ∷ [];
          },
        )
        else (some BindError.buffer_full, b'))

unfoldable pub add_ref : SharedBind → SharedBind
add_ref b = record b { ref_count = b.ref_count + 1 }

abbrev pub socket_of : Option ℕ → List ℕ
socket_of none = []
socket_of (some c) = c ∷ []

unfoldable pub close_connection : SharedBind → SharedBind
close_connection b = if b.is_closed then b else record b {
  is_closed = true;
  close_signals = b.close_signals + 1;
  closed_sockets = socket_of b.udp_conn ++ b.closed_sockets;
  udp_conn = none;
  netstack_conn = none;
  netstack_endpoints = [];
}

-- also `Close`; the count that went below 0 is set to 0 again
unfoldable pub release : SharedBind → Option BindError × SharedBind
unfolding close_connection
release b =
    if b.ref_count == 0
    then (some BindError.negative_count, b)
    else (let b' = record b { ref_count = b.ref_count - 1 } in
        (none, if b'.ref_count == 0 then close_connection b' else b'))

unfoldable pub close_socket : SharedBind → Option BindError × (ℕ × SharedBind)
close_socket b = if b.is_closed then (some BindError.closed, (0, b)) else (
  none,
  (
    b.port,
    record b {
      rebinding = true;
      closed_sockets = socket_of b.udp_conn ++ b.closed_sockets;
      udp_conn = none;
    },
  ),
)

-- the new connection, if any, with its local port
unfoldable pub rebind : Option (ℕ × ℕ) → SharedBind → Option BindError × SharedBind
rebind none b = (some BindError.nil_conn, b)
rebind (some (conn, port)) b = if b.is_closed then (some BindError.closed, b) else (
  none,
  record b {
    closed_sockets = socket_of b.udp_conn ++ b.closed_sockets;
    udp_conn = some conn;
    port = port;
    rebinding = false;
  },
)

-- the socket of the receive function, and the port
unfoldable pub open_bind : SharedBind → Option (ℕ × ℕ)
open_bind b =
    if b.is_closed then none else elim b.udp_conn [ none ↦ none | some c ↦ some (c, b.port) ]
