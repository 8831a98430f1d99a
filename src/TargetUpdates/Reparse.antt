-- ===== src/TargetUpdates/Reparse.antt =====
-- newt/targets.go: the targets that `parseTargetString` gives, printed with their port as
-- newt/data.go prints them.
use newt.Prelude.{
  ℕ, ◌≤◌, ◌≡◌, ◌≢◌, refl, false, some, [], ◌∷◌, ◌++◌, nat_eq, ℤ, pos, negsuc, arith, ◌∙◌, ap, sym,
  Option-cases, inl, inr,
}
use newt.Prelude.GoMap.{elem}
use newt.HostPort.{Text, text_eq, text_beq_iff, split_first, split_host_port, join_host_port}
use newt.HostPort.Rejoin.{
  IsParts, split_host_port-IsParts, split-join_host_port, split_first-append,
}
use newt.Numeral.{scan_int, print_int, scan_int-print_int, print_int-parts, read_digits}
use newt.TargetUpdates.{parse_target_string, parse_remainder}

-- `fmt.Sprintf("%d:%s", port, target)`
abbrev pub target_text : ℤ → Text → Text
target_text port target = print_int port (b':' ∷ target)

-- A target as the parser gives it.
pub record IsTarget (port : ℤ) (target : Text) : Type 0 where
  pub number : ℕ
  pub is_number : port ≡ pos number
  pub low : 1 ≤ number
  pub high : number ≤ 65535
  pub host : Text
  pub target_port : Text
  pub parts : IsParts host target_port
  pub joined : target ≡ join_host_port host target_port
  pub some_host : host ≢ []
  pub some_port : target_port ≢ []

parse_remainder-joined :
    (host port : Text)
    → IsParts host port
    → host ≢ []
    → port ≢ []
    → parse_remainder (split_host_port (join_host_port host port)) ≡ some (join_host_port host port)
unfolding parse_remainder
parse_remainder-joined host port p h k =
    rw (split-join_host_port host port p)
      (ground (arith, text_beq_iff host [], text_beq_iff port []))

parse_remainder-inv :
    (r t : Text)
    → parse_remainder (split_host_port r) ≡ some t
    → (host : Text) × (port : Text) × IsParts host port
      × (t ≡ join_host_port host port)
      × (host ≢ [])
      × (port ≢ [])
unfolding parse_remainder
parse_remainder-inv r t h = elim (Option-cases (split_host_port r)) [
  | inl e ↦ ground arith
  | inr ((host, port), e) ↦
      let b = text_beq_iff host [] in
      let d = text_beq_iff port [] in
      (
        host,
        port,
        split_host_port-IsParts r host port e,
        ground (arith, b, d),
        λ z. ground (arith, b, d),
        λ z. ground (arith, b, d),
      )
]

-- the port is in range, and the rest parses
parse_target_string-inv :
    (s : Text) (port : ℤ) (target : Text)
    → parse_target_string s ≡ some (port, target)
    → (n : ℕ) × (remainder : Text) × (port ≡ pos n)
      × (1 ≤ n)
      × (n ≤ 65535)
      × (parse_remainder (split_host_port remainder) ≡ some target)
unfolding parse_target_string
parse_target_string-inv s port target h = elim (Option-cases (split_first b':' s)) [
  | inl e ↦ ground arith
  | inr ((listen, remainder), e) ↦ elim (Option-cases (scan_int listen)) [
    | inl f ↦ ground arith
    | inr (negsuc n, f) ↦ ground arith
    | inr (pos n, f) ↦ elim (Option-cases (parse_remainder (split_host_port remainder))) [
      | inl g ↦ ground arith
      | inr (t, g) ↦ (n, remainder, ground arith, ground arith, ground arith, ground arith)
    ]
  ]
]

-- what the parser returns
pub parse_target_string-IsTarget :
    (s : Text) (port : ℤ) (target : Text)
    → parse_target_string s ≡ some (port, target)
    → IsTarget port target
parse_target_string-IsTarget s port target h =
    let (n, remainder, at, low, high, rest) = parse_target_string-inv s port target h in
    let (host, p, parts, joined, h0, p0) = parse_remainder-inv remainder target rest in
    record {
      number = n;
      is_number = at;
      low = low;
      high = high;
      host = host;
      target_port = p;
      parts = parts;
      joined = joined;
      some_host = h0;
      some_port = p0;
    }

parse_target_string-parts :
    (n : ℕ) (listen remainder target : Text)
    → elem b':' listen ≡ false
    → scan_int listen ≡ some (pos n)
    → 1 ≤ n
    → n ≤ 65535
    → parse_remainder (split_host_port remainder) ≡ some target
    → parse_target_string (listen ++ b':' ∷ remainder) ≡ some (pos n, target)
unfolding parse_target_string
parse_target_string-parts n listen remainder target no_colon scanned low high rest =
    ground (arith, split_first-append b':' listen remainder no_colon)

-- the text of a target parses to it
pub parse-target_text :
    (port : ℤ) (target : Text)
    → IsTarget port target
    → parse_target_string (target_text port target) ≡ some (port, target)
parse-target_text port target t =
    let n = t.number in
    let shown = print_int-parts n b':' (b':' ∷ target) refl in
    let rest = parse_remainder-joined t.host t.target_port t.parts t.some_host t.some_port in
    rw t.is_number (
      ap parse_target_string shown.0
      ∙ parse_target_string-parts n _ target target shown.1
          (scan_int-print_int n [] (omega (arith, t.high)) (unfold read_digits in refl)) t.low
          t.high
          (ap (λ x. parse_remainder (split_host_port x)) t.joined ∙ rest ∙ ap some (sym t.joined)))

-- A target text that parses is printed, with its port, to a text that parses to the same target and
-- the same port.
pub parse_target_string-again :
    (s : Text) (port : ℤ) (target : Text)
    → parse_target_string s ≡ some (port, target)
    → parse_target_string (target_text port target) ≡ some (port, target)
parse_target_string-again s port target h =
    parse-target_text port target (parse_target_string-IsTarget s port target h)
