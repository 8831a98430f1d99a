-- ===== src/Dnat/Handlers.antt =====
-- netstack2/handlers.go: the connection of which a TCP or UDP handler releases the state when it ends.
-- The handlers know a connection by the identifier that the stack gives them, whose local address is
-- the destination of the packets that were injected.
use newt.Prelude.{ℕ}
use newt.Subnet.{Addr}
use newt.Dnat.{ConnKey}
use newt.Dnat.Tables.{NatTables, release_connection_state}

-- `stack.TransportEndpointID`
pub record TransportEndpointId : Type 0 where
  pub local_address : Addr
  pub local_port : ℕ
  pub remote_address : Addr
  pub remote_port : ℕ

-- the arguments of the deferred call, with the handler's protocol
unfoldable pub handler_key : ℕ → TransportEndpointId → ConnKey
handler_key proto id = record {
  src = id.remote_address;
  src_port = id.remote_port;
  dst = id.local_address;
  dst_port = id.local_port;
  proto = proto;
}

-- the end of `handleTCPConn` and `handleUDPConn`
unfoldable pub end_connection : ℕ → TransportEndpointId → NatTables → NatTables
unfolding handler_key
end_connection proto id t = release_connection_state (handler_key proto id) t
