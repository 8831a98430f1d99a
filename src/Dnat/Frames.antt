-- ===== src/Dnat/Frames.antt =====
-- Packets as records of what is read of them and their two checksums, for concrete runs.
use newt.Prelude.{ℕ, ◌+◌, ◌-◌, refl, ◌==◌, nat_eq, beq_refl}
use newt.Dnat.{View, complement, to_uint16, Ipv4}

pub record Frame : Type 0 where
  pub seen : View
  pub header_field : ℕ
  pub transport_field : ℕ

-- the sum over the addresses stands for that over the header
abbrev pub address_sum : View → ℕ
address_sum v = to_uint16 (v.source + v.dest)

abbrev pub pseudo_sum : ℕ → ℕ → ℕ → ℕ → ℕ
pseudo_sum proto source dest n = to_uint16 (proto + source + dest + n)

abbrev pub frames : Ipv4
frames = record {
  Packet = Frame;
  view = λ f. f.seen;
  set_source = λ a f. record f { seen = record f.seen { source = a } };
  set_dest = λ a f. record f { seen = record f.seen { dest = a } };
  set_checksum = λ n f. record f { header_field = n };
  calculate_checksum = λ f. address_sum f.seen;
  set_tcp_checksum = λ n f. record f { transport_field = n };
  set_udp_checksum = λ n f. record f { transport_field = n };
  pseudo_header_checksum = pseudo_sum;
  checksum = λ f n. n;
  header_valid = λ f. f.header_field == complement (address_sum f.seen);
  transport_valid = λ f.
      f.transport_field
      == complement (
          pseudo_sum f.seen.protocol f.seen.source f.seen.dest
            (to_uint16 (f.seen.size - f.seen.header_len)));
  view-set_source = λ a f h. refl;
  view-set_dest = λ a f h. refl;
  view-set_checksum = λ n f h. refl;
  view-set_tcp_checksum = λ n f h. refl;
  view-set_udp_checksum = λ n f h. refl;
  header_valid-set_tcp_checksum = λ n f h. refl;
  header_valid-set_udp_checksum = λ n f h. refl;
  header_valid-set_checksum = λ f h. beq_refl (complement (address_sum f.seen));
  transport_valid-set_tcp_checksum = λ f h tcp. rw tcp (
      beq_refl (
        complement
          (pseudo_sum 6 f.seen.source f.seen.dest (to_uint16 (f.seen.size - f.seen.header_len)))));
  transport_valid-set_udp_checksum = λ f h udp. rw udp (
      beq_refl (
        complement
          (pseudo_sum 17 f.seen.source f.seen.dest (to_uint16 (f.seen.size - f.seen.header_len)))));
}
