-- ===== src/AccessLog.antt =====
-- netstack2/access_log.go: the data of the access logger. Times are numbers of nanoseconds, and an
-- unset `EndedAt` is `none`. Byte counters are 64-bit patterns; a count of connections is at most
-- the number of sessions of a batch, so it is a plain number. Addresses are byte lists.
pub mod Consolidate
pub mod Logger
mod Tests
use newt.Prelude.{
  ℕ, ◌≡◌, ◌↔◌, String, Bool, true, ◌&&◌, Option, List, arith, ℤ, Eq, ◌==◌, string_eq, int_eq,
  int_beq, int_beq_iff, str_beq_iff,
}
use newt.HostPort.{Text, text_beq, text_beq_iff}
use text.Mathlib.Text.{◌==◌ as str_eq}

pub record AccessSession : Type 0 where
  pub session_id : String
  pub resource_id : ℤ
  pub source_addr : Text
  pub dest_addr : Text
  pub protocol : String
  pub started_at : ℕ
  pub ended_at : Option ℕ
  pub bytes_tx : ℕ
  pub bytes_rx : ℕ
  pub connection_count : ℕ

pub record UdpSessionKey : Type 0 where
  pub src_addr : Text
  pub dst_addr : Text
  pub protocol : String

pub record ConsolidationKey : Type 0 where
  pub source_ip : Text
  pub dest_addr : Text
  pub protocol : String
  pub resource_id : ℤ

abbrev pub udp_beq : UdpSessionKey → UdpSessionKey → Bool
udp_beq a b =
    text_beq a.src_addr b.src_addr
    && (text_beq a.dst_addr b.dst_addr && str_eq a.protocol b.protocol)

pub udp_beq_iff : (a b : UdpSessionKey) → (udp_beq a b ≡ true) ↔ (a ≡ b)
udp_beq_iff a b = (
  λ h. ground (
    arith,
    text_beq_iff a.src_addr b.src_addr,
    text_beq_iff a.dst_addr b.dst_addr,
    str_beq_iff a.protocol b.protocol,
  ),
  λ h. ground (
    arith,
    text_beq_iff a.src_addr b.src_addr,
    text_beq_iff a.dst_addr b.dst_addr,
    str_beq_iff a.protocol b.protocol,
  ),
)

instance abbrev pub udp_eq : Eq UdpSessionKey
udp_eq = record { beq = udp_beq; beq_iff = udp_beq_iff }

abbrev pub key_beq : ConsolidationKey → ConsolidationKey → Bool
key_beq a b =
    text_beq a.source_ip b.source_ip
    && (text_beq a.dest_addr b.dest_addr
        && (str_eq a.protocol b.protocol && int_beq a.resource_id b.resource_id))

pub key_beq_iff : (a b : ConsolidationKey) → (key_beq a b ≡ true) ↔ (a ≡ b)
key_beq_iff a b = (
  λ h. ground (
    arith,
    text_beq_iff a.source_ip b.source_ip,
    text_beq_iff a.dest_addr b.dest_addr,
    str_beq_iff a.protocol b.protocol,
    int_beq_iff a.resource_id b.resource_id,
  ),
  λ h. ground (
    arith,
    text_beq_iff a.source_ip b.source_ip,
    text_beq_iff a.dest_addr b.dest_addr,
    str_beq_iff a.protocol b.protocol,
    int_beq_iff a.resource_id b.resource_id,
  ),
)

instance abbrev pub key_eq : Eq ConsolidationKey
key_eq = record { beq = key_beq; beq_iff = key_beq_iff }

abbrev pub max_buffered_sessions : ℕ
max_buffered_sessions = 100

-- 5 seconds
abbrev pub session_gap_threshold : ℕ
session_gap_threshold = 5000000000

abbrev pub min_connections_to_consolidate : ℕ
min_connections_to_consolidate = 2

-- 5 minutes
abbrev pub stale_after : ℕ
stale_after = 300000000000
