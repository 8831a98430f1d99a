-- ===== src/Dnat.antt =====
-- netstack2/proxy.go: the data of the address translation. An address is that of `Subnet`; its text,
-- by which the code's keys name it, stands for the same address. Packets are read and written through
-- the interface `Ipv4`, which stands for gvisor's header package.
pub mod Tables
pub mod Packets
pub mod Handlers
pub mod Frames
mod Tests
use newt.Prelude.{
  ℕ, ◌-◌, ◌≤◌, ◌+◌, ◌/◌, ◌%◌, ◌^◌, ◌≡◌, ◌↔◌, Bool, true, false, ◌&&◌, ◌||◌, Option, none, some,
  List, arith, Eq, ◌==◌, nat_eq, nat_beq, nat_beq_iff, bool_beq, if◌then◌else◌,
}
use newt.Subnet.{Addr}

abbrev pub ip_beq : Addr → Addr → Bool
ip_beq a b = bool_beq a.wide b.wide && nat_beq a.value b.value

pub ip_beq_iff : (a b : Addr) → (ip_beq a b ≡ true) ↔ (a ≡ b)
ip_beq_iff a b = ground arith

-- `connKey`; its `dst` is the destination before translation
pub record ConnKey : Type 0 where
  pub src : Addr
  pub src_port : ℕ
  pub dst : Addr
  pub dst_port : ℕ
  pub proto : ℕ

pub record ReverseConnKey : Type 0 where
  pub rewritten_to : Addr
  pub original_src : Addr
  pub original_src_port : ℕ
  pub original_dst_port : ℕ
  pub proto : ℕ

pub record DestKey : Type 0 where
  pub src : Addr
  pub dst : Addr
  pub dst_port : ℕ
  pub proto : ℕ

pub record NatState : Type 0 where
  pub original_dst : Addr
  pub rewritten_to : Addr

abbrev pub conn_beq : ConnKey → ConnKey → Bool
conn_beq a b =
    ip_beq a.src b.src
    && (nat_beq a.src_port b.src_port
        && (ip_beq a.dst b.dst && (nat_beq a.dst_port b.dst_port && nat_beq a.proto b.proto)))

pub conn_beq_iff : (a b : ConnKey) → (conn_beq a b ≡ true) ↔ (a ≡ b)
conn_beq_iff a b = (
  λ h. ground (arith, ip_beq_iff a.src b.src, ip_beq_iff a.dst b.dst),
  λ h. ground (arith, ip_beq_iff a.src b.src, ip_beq_iff a.dst b.dst),
)

instance abbrev pub conn_eq : Eq ConnKey
conn_eq = record { beq = conn_beq; beq_iff = conn_beq_iff }

abbrev pub reverse_beq : ReverseConnKey → ReverseConnKey → Bool
reverse_beq a b =
    ip_beq a.rewritten_to b.rewritten_to
    && (ip_beq a.original_src b.original_src
        && (nat_beq a.original_src_port b.original_src_port
            && (nat_beq a.original_dst_port b.original_dst_port && nat_beq a.proto b.proto)))

pub reverse_beq_iff : (a b : ReverseConnKey) → (reverse_beq a b ≡ true) ↔ (a ≡ b)
reverse_beq_iff a b = (
  λ h.
      ground
        (arith, ip_beq_iff a.rewritten_to b.rewritten_to, ip_beq_iff a.original_src b.original_src),
  λ h.
      ground
        (arith, ip_beq_iff a.rewritten_to b.rewritten_to, ip_beq_iff a.original_src b.original_src),
)

instance abbrev pub reverse_eq : Eq ReverseConnKey
reverse_eq = record { beq = reverse_beq; beq_iff = reverse_beq_iff }

abbrev pub dest_beq : DestKey → DestKey → Bool
dest_beq a b =
    ip_beq a.src b.src
    && (ip_beq a.dst b.dst && (nat_beq a.dst_port b.dst_port && nat_beq a.proto b.proto))

pub dest_beq_iff : (a b : DestKey) → (dest_beq a b ≡ true) ↔ (a ≡ b)
dest_beq_iff a b = (
  λ h. ground (arith, ip_beq_iff a.src b.src, ip_beq_iff a.dst b.dst),
  λ h. ground (arith, ip_beq_iff a.src b.src, ip_beq_iff a.dst b.dst),
)

instance abbrev pub dest_eq : Eq DestKey
dest_eq = record { beq = dest_beq; beq_iff = dest_beq_iff }

-- `Is4In6`: the addresses ::ffff:0:0/96
abbrev pub is_4in6 : Addr → Bool
is_4in6 a = a.wide && nat_beq (a.value / 2 ^ 32) 65535

-- `IsLoopback`
unfoldable pub is_loopback : Addr → Bool
is_loopback a =
    if a.wide
    then nat_beq a.value 1 || (is_4in6 a && nat_beq (a.value % 2 ^ 32 / 2 ^ 24) 127)
    else nat_beq (a.value / 2 ^ 24) 127

-- `As4`, which panics at any other IPv6 address
unfoldable pub as4 : Addr → Option ℕ
as4 a = if a.wide then (if is_4in6 a then some (a.value % 2 ^ 32) else none) else some a.value

-- `AddrFrom4`
abbrev pub addr_from4 : ℕ → Addr
addr_from4 n = record { wide = false; value = n }

-- What the program reads of a packet. The ports are those of a TCP or UDP header behind the IPv4
-- header, where the packet is long enough for one.
pub record View : Type 0 where
  pub size : ℕ
  pub version : ℕ
  pub source : ℕ
  pub dest : ℕ
  pub protocol : ℕ
  pub header_len : ℕ
  pub source_port : ℕ
  pub dest_port : ℕ
  pub payload : List ℕ

-- The complement of a 16-bit number, and its cut of a length.
abbrev pub complement : ℕ → ℕ
complement n = 65535 - n

abbrev pub to_uint16 : ℕ → ℕ
to_uint16 n = n % 2 ^ 16

-- The packet holds its IPv4 header, which is of a valid length, and `n` bytes behind it.
abbrev pub Holds : ℕ → View → Type 0
Holds n v = (20 ≤ v.header_len) × (v.header_len + n ≤ v.size)

-- gvisor's `header.IPv4`, `header.TCP`, `header.UDP` and `checksum`, and what the program relies on of
-- them. A setter of a packet that is long enough changes its field alone. The checksum of the header
-- is valid when it is the complement of the sum that is computed while the field is 0, and so is that
-- of TCP or UDP, whose sum begins with that of the pseudo header.
pub record Ipv4 : Type 1 where
  pub Packet : Type 0
  pub view : Packet → View
  pub set_source : ℕ → Packet → Packet
  pub set_dest : ℕ → Packet → Packet
  pub set_checksum : ℕ → Packet → Packet
  pub calculate_checksum : Packet → ℕ
  pub set_tcp_checksum : ℕ → Packet → Packet
  pub set_udp_checksum : ℕ → Packet → Packet
  pub pseudo_header_checksum : ℕ → ℕ → ℕ → ℕ → ℕ
  -- `checksum.Checksum` of what is behind the IPv4 header
  pub checksum : Packet → ℕ → ℕ
  pub header_valid : Packet → Bool
  pub transport_valid : Packet → Bool
  pub view-set_source :
      (a : ℕ) (p : Packet)
      → 20 ≤ (view p).size
      → view (set_source a p) ≡ record (view p) { source = a }
  pub view-set_dest :
      (a : ℕ) (p : Packet) → 20 ≤ (view p).size → view (set_dest a p) ≡ record (view p) { dest = a }
  pub view-set_checksum :
      (n : ℕ) (p : Packet) → 20 ≤ (view p).size → view (set_checksum n p) ≡ view p
  pub view-set_tcp_checksum :
      (n : ℕ) (p : Packet) → Holds 20 (view p) → view (set_tcp_checksum n p) ≡ view p
  pub view-set_udp_checksum :
      (n : ℕ) (p : Packet) → Holds 8 (view p) → view (set_udp_checksum n p) ≡ view p
  pub header_valid-set_tcp_checksum :
      (n : ℕ) (p : Packet)
      → Holds 20 (view p)
      → header_valid (set_tcp_checksum n p) ≡ header_valid p
  pub header_valid-set_udp_checksum :
      (n : ℕ) (p : Packet) → Holds 8 (view p) → header_valid (set_udp_checksum n p) ≡ header_valid p
  pub header_valid-set_checksum :
      (p : Packet)
      → Holds 0 (view p)
      → header_valid
          (set_checksum (complement (calculate_checksum (set_checksum 0 p))) (set_checksum 0 p))
        ≡ true
  pub transport_valid-set_tcp_checksum :
      (p : Packet)
      → Holds 20 (view p)
      → (view p).protocol ≡ 6
      → transport_valid (
          set_tcp_checksum
            (complement (
              checksum (set_tcp_checksum 0 p) (
                pseudo_header_checksum 6
                  (view p).source
                  (view p).dest
                  (to_uint16 ((view p).size - (view p).header_len)))))
            (set_tcp_checksum 0 p))
        ≡ true
  pub transport_valid-set_udp_checksum :
      (p : Packet)
      → Holds 8 (view p)
      → (view p).protocol ≡ 17
      → transport_valid (
          set_udp_checksum
            (complement (
              checksum (set_udp_checksum 0 p) (
                pseudo_header_checksum 17
                  (view p).source
                  (view p).dest
                  (to_uint16 ((view p).size - (view p).header_len)))))
            (set_udp_checksum 0 p))
        ≡ true
