-- ===== src/Lib.antt =====
-- Verification of newt, the tunnel client of Pangolin (Go).
--
-- The program keeps a WireGuard tunnel to a server and forwards traffic through it. Its parts meet
-- in package `newt` (newt/newt.go, newt/handlers.go, newt/data.go), which hands the server's
-- messages to the components. The files here model the components' own logic:
--
-- * Health (healthcheck/healthcheck.go): health checks of targets with thresholds, the registry of
--   targets, and the monitoring goroutines. `Registry.sync_targets` is `SyncTargets`, and so on.
-- * Subnet (netstack2/subnet_lookup.go): the two-level prefix table of access rules and `Match`.
-- * AccessLog (netstack2/access_log.go): `Consolidate` merges the sessions of a burst
--   (`consolidateSessions`), `Logger` is `AccessLogger` with its maps of active sessions, its
--   buffer and its flushes. The packet handlers of netstack2 call it for each connection that a
--   rule of Subnet admits.
-- * RequestLog (netstack2/http_request_log.go): `HTTPRequestLogger`, a buffer of the same kind.
-- * SharedBind (bind/shared_bind.go): the UDP socket that WireGuard and the hole punch share. Its
--   `Lifecycle` is the counting of references, closing and rebinding, `Receiver` the receive
--   function that outlives a rebind, `Batch` the filtering of a batch that was read, `Routing` the
--   choice between socket and netstack in `Send` and the packets that test a hole punch.
-- * Proxy (proxy/manager.go): `ProxyManager`, its targets and listeners, and in `Counters` the byte
--   counters of its tunnels. The server's messages add and remove targets there, one per resource,
--   beside their health checks.
-- * Dnat (netstack2/proxy.go): `ProxyHandler` translates the destinations of packets. `Tables` is
--   its tables of connections, `Packets` the way of a packet through the handler and of a reply back
--   through the tunnel, `Handlers` (netstack2/handlers.go) the release of a connection that ends. The
--   rule of a packet is found by Subnet.
-- * Ping (newt/ping.go): `Attempts` is `reliablePing`, `Check` the goroutine of `startPingCheck` and
--   `Retry` that of `pingWithRetry`.
-- * TargetUpdates (newt/targets.go, newt/data.go): target texts, `updateTargets`, and in `Sync` the
--   part of `handleSync` that makes the targets of Proxy the ones the server sent.
-- * Holepunch (holepunch/holepunch.go): `Manager` with its exit nodes, channels and intervals, and in
--   `Worker` the goroutine that sends to them through SharedBind.
-- * ExitNodes (exitnode/exitnode.go): `PingExitNodes`, the choice of the results for the server.
-- * Clients (clients/clients.go): the certificates and targets of `WireGuardService`, which become
--   rules of the packet proxy of Dnat; in `Peers` the sync of its peers with the WireGuard device,
--   and in `Bandwidth` the readings of their counters.
-- * HostPort and Numeral (used by the texts above): `net.SplitHostPort`, `net.JoinHostPort`,
--   `fmt.Sscanf` and `fmt.Sprintf` of `%d` of the standard library, on byte lists.
-- * Prelude (no code of its own): lists, maps, integers and Boolean tests that the others share. A
--   Go map is an association list whose order stands for the unspecified order of `range`.
--
-- A function `fooBar` of the code is `foo_bar` here, its receiver the last argument and part of the
-- result. Go's `int` is an integer, 64-bit counters and the intervals of Holepunch wrap around, and
-- times are numbers of nanoseconds that are passed in. No definition needs fuel: all loops are over
-- finite lists, and the loops of goroutines are steps of relations or lists of events. The prefix
-- tree (github.com/gaissmai/bart) is the interface `Subnet.Bart`, the sort by start time the
-- interface `Consolidate.Sorter`, the headers and checksums of gvisor's packets the interface
-- `Dnat.Ipv4`, listening on ports the interface `Proxy.Net`, scalings by floating-point factors and
-- conversions to `float64` the interfaces `Ping.Scaling` and `Bandwidth.Float64`, the device of
-- golang.zx2c4.com/wireguard the interface `Clients.Peers.Device`; pings, DNS, scripts, HTTP
-- requests, encodings, the parsing of prefixes and of keys, and the callbacks that send are
-- functions that are passed in.
--
-- Not modelled: the connection handlers of proxy/manager.go, the connection to the server
-- (websocket/, newt/connect.go), the tester of hole punching (holepunch/tester.go), the interfaces
-- and the direct relay of the WireGuard service (clients/), the set-up and closing of the stack in
-- netstack2/proxy.go, `receiveIPv4Simple` and `makeReceiveNetstack` of bind/shared_bind.go, and what
-- is I/O or glue over other packages (docker/, nativessh/, network/, browsergateway/, authdaemon/,
-- internal/telemetry/).
pub mod AccessLog
pub mod Clients
pub mod Dnat
pub mod ExitNodes
pub mod Health
pub mod Holepunch
pub mod HostPort
pub mod Numeral
pub mod Ping
pub mod Prelude
pub mod Proxy
pub mod RequestLog
pub mod SharedBind
pub mod Subnet
pub mod TargetUpdates
