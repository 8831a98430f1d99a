-- ===== src/Subnet/Table/Soundness.antt =====
-- netstack2/subnet_lookup.go: a rule that `Match` returns applies to the packet.
use newt.Prelude.{
  ℕ, zero, suc, ◌≡◌, ◌≤◌, refl, subst, true, ◌&&◌, some, List, [], ◌∷◌, arith, ◌↔◌, sym, Bool-cases,
  ◌==◌, if◌then◌else◌, ap, ◌∙◌, ◌⊎◌, String, false, leb, str_beq_iff, string_eq, nat_eq, length,
  inl, inr, All, All-append,
}
use newt.Subnet.{
  Addr, Prefix, prefix_eq, prefix_beq_iff, masked, host_prefix, covers, covers_from, Bart,
  SubnetRule, PortRange, bit_len,
}
use newt.Subnet.Table.{
  Protocol, Decision, decide_rules, SubnetLookup, replace_all, result, match_rule, matched, allows,
  any_range, is_icmp, decide_rule, undecided, refused,
}
use newt.Subnet.Table.Contents.{masked-masked, last_rule, row, candidates}
use newt.Subnet.Table.Matching.{match_rule-replace_all}

decide_rule_cases :
    (port : ℕ) (proto : Protocol) (x : SubnetRule)
    → (decide_rule port proto x ≡ matched x)
      ⊎ ((decide_rule port proto x ≡ refused) ⊎ (decide_rule port proto x ≡ undecided))
unfolding decide_rule
decide_rule_cases port proto x = ground arith

-- A rule that the search returns is one of the list, and matches on its own.
decide_rules-matched :
    (P : SubnetRule → Type 0) (port : ℕ) (proto : Protocol) (rs : List SubnetRule) (r : SubnetRule)
    → All P rs
    → decide_rules port proto rs ≡ matched r
    → P r × (decide_rule port proto r ≡ matched r)
unfolding decide_rules
decide_rules-matched P port proto [] r h e = cc
decide_rules-matched P port proto (x ∷ rs) r h e = elim (decide_rule_cases port proto x) [
  | inl hit ↦
      let same : x ≡ r = ground arith in
      (subst P same h.0, subst (λ y. decide_rule port proto y ≡ matched y) same hit)
  | inr miss ↦ decide_rules-matched P port proto rs r h.1 (ground arith)
]

-- The prefix contains the address.
pub record Contains (p : Prefix) (a : Addr) : Type 0 where
  pub family : p.wide ≡ a.wide
  pub bits : p.bits ≤ bit_len a.wide
  pub network : masked p ≡ masked (record { wide = a.wide; value = a.value; bits = p.bits })

abbrev IsCover : Addr → Prefix → Type 0
IsCover a s =
    (n : ℕ) × (n ≤ bit_len a.wide)
    × (s ≡ masked (record { wide = a.wide; value = a.value; bits = n }))

covers_from-IsCover :
    (a : Addr) (n : ℕ) → n ≤ bit_len a.wide → All (IsCover a) (covers_from a.wide a.value n)
covers_from-IsCover a zero h = ((0, h, refl), tt)
covers_from-IsCover a (suc n) h = ((suc n, h, refl), covers_from-IsCover a n (omega arith))

masked_parts : (p q : Prefix) → masked p ≡ masked q → (p.wide ≡ q.wide) × (p.bits ≡ q.bits)
unfolding masked
masked_parts p q h = (ap (λ x. x.wide) h, ap (λ x. x.bits) h)

Contains-of_cover :
    (p : Prefix) (a : Addr) (s : Prefix) → IsCover a s → masked p ≡ masked s → Contains p a
Contains-of_cover p a s (n, le, e) h =
    let base : Prefix = record { wide = a.wide; value = a.value; bits = n } in
    let same : masked p ≡ masked base = h ∙ ap masked e ∙ masked-masked base in
    let bits : p.bits ≡ n = (masked_parts p base same).1 in
    record {
      family = (masked_parts p base same).0;
      bits = rw bits le;
      network =
          same ∙ ap (λ b. masked (record { wide = a.wide; value = a.value; bits = b })) (sym bits);
    }

-- A rule that lies on both addresses.
abbrev pub Applies : Addr → Addr → SubnetRule → Type 0
Applies src dst r = Contains r.source_prefix src × Contains r.dest_prefix dst

abbrev IsIcmp : Protocol → Type 0
IsIcmp proto = (proto ≡ Protocol.icmp4) ⊎ (proto ≡ Protocol.icmp6)

-- The protocol that a port range names is that of the packet; the empty name stands for any.
abbrev IsNamed : String → Protocol → Type 0
IsNamed name proto =
    (name ≡ "")
    ⊎ (((name ≡ "tcp") × (proto ≡ Protocol.tcp)) ⊎ ((name ≡ "udp") × (proto ≡ Protocol.udp)))

-- Some range holds the port and names the protocol.
abbrev InSome : ℕ → Protocol → List PortRange → Type 0
InSome port proto [] = ⊥
InSome port proto (r ∷ l) =
    ((r.min ≤ port) × (port ≤ r.max) × IsNamed r.protocol proto) ⊎ InSome port proto l

-- ICMP is allowed unless the rule disables it, and anything else unless the rule has port ranges and
-- none of them holds the port and names the protocol.
abbrev pub Allows : ℕ → Protocol → SubnetRule → Type 0
Allows port proto r =
    (IsIcmp proto × (r.disable_icmp ≡ false))
    ⊎ (¬ IsIcmp proto × ((r.port_ranges ≡ []) ⊎ InSome port proto r.port_ranges))

allows-IsNamed : (name : String) (proto : Protocol) → allows name proto ≡ true → IsNamed name proto
allows-IsNamed name Protocol.tcp h = ground (arith, str_beq_iff name "", str_beq_iff name "tcp")
allows-IsNamed name Protocol.udp h = ground (arith, str_beq_iff name "", str_beq_iff name "udp")
allows-IsNamed name Protocol.icmp4 h = inl ((str_beq_iff name "").0 h)
allows-IsNamed name Protocol.icmp6 h = inl ((str_beq_iff name "").0 h)
allows-IsNamed name (Protocol.other n) h = inl ((str_beq_iff name "").0 h)

any_range-InSome :
    (port : ℕ) (proto : Protocol) (l : List PortRange)
    → any_range port proto l ≡ true
    → InSome port proto l
unfolding any_range
any_range-InSome port proto [] h = absurd (cc h)
any_range-InSome port proto (r ∷ l) h =
    elim (Bool-cases (leb r.min port && leb port r.max && allows r.protocol proto)) [
      | inl e ↦ inl (ground arith, ground arith, allows-IsNamed r.protocol proto (ground arith))
      | inr e ↦ inr (any_range-InSome port proto l (ground arith))
    ]

is_icmp-IsIcmp : (proto : Protocol) → is_icmp proto ≡ true → IsIcmp proto
is_icmp-IsIcmp Protocol.icmp4 h = inl refl
is_icmp-IsIcmp Protocol.icmp6 h = inr refl
is_icmp-IsIcmp Protocol.tcp h = absurd (cc h)
is_icmp-IsIcmp Protocol.udp h = absurd (cc h)
is_icmp-IsIcmp (Protocol.other n) h = absurd (cc h)

not-IsIcmp : (proto : Protocol) → is_icmp proto ≡ false → ¬ IsIcmp proto
not-IsIcmp proto h (inl e) = absurd (cc (h, ap is_icmp e))
not-IsIcmp proto h (inr e) = absurd (cc (h, ap is_icmp e))

length_zero : (l : List PortRange) → (length l == 0) ≡ true → l ≡ []
length_zero [] h = refl
length_zero (r ∷ l) h = absurd (ground arith)

decide_rule-Allows :
    (port : ℕ) (proto : Protocol) (r : SubnetRule)
    → decide_rule port proto r ≡ matched r
    → Allows port proto r
unfolding decide_rule
decide_rule-Allows port proto r h = elim (Bool-cases (is_icmp proto)) [
  | inl e ↦ inl (is_icmp-IsIcmp proto e, ground arith)
  | inr e ↦ inr (
    not-IsIcmp proto e,
    elim (Bool-cases (length r.port_ranges == 0)) [
      | inl none_given ↦ inl (length_zero r.port_ranges none_given)
      | inr given ↦ inr (any_range-InSome port proto r.port_ranges (ground arith))
    ],
  )
]

last_rule_step :
    (s d : Prefix) (r : SubnetRule) (later : List SubnetRule)
    → All (λ x. (masked x.source_prefix ≡ masked s) × (masked x.dest_prefix ≡ masked d)) later
    → ((masked r.source_prefix == masked s) ≡ true) ↔ (masked r.source_prefix ≡ masked s)
    → ((masked r.dest_prefix == masked d) ≡ true) ↔ (masked r.dest_prefix ≡ masked d)
    → All
        (λ x. (masked x.source_prefix ≡ masked s) × (masked x.dest_prefix ≡ masked d))
        (elim later [
          | x ∷ xs ↦ x ∷ xs
          | [] ↦
              if masked r.source_prefix == masked s && masked r.dest_prefix == masked d
              then r ∷ []
              else []
        ])
last_rule_step s d r (x ∷ xs) h ps pd = h
last_rule_step s d r [] h ps pd =
    elim (Bool-cases (masked r.source_prefix == masked s && masked r.dest_prefix == masked d)) [
      | inl e ↦ rw e ((ps.0 (ground arith), pd.0 (ground arith)), tt)
      | inr e ↦ rw e tt
    ]

All-map :
    {P Q : SubnetRule → Type 0}
    → ((r : SubnetRule) → P r → Q r)
    → (rs : List SubnetRule) → All P rs
    → All Q rs
All-map f [] h = tt
All-map f (r ∷ rs) h = (f r h.0, All-map f rs h.1)

result_inv : (d : Decision) (r : SubnetRule) → result d ≡ some r → d ≡ matched r
result_inv d r h = ground arith

last_rule-All :
    (s d : Prefix) (rs : List SubnetRule)
    → All
        (λ r. (masked r.source_prefix ≡ masked s) × (masked r.dest_prefix ≡ masked d))
        (last_rule s d rs)
last_rule-All s d [] = tt
last_rule-All s d (r ∷ rs) =
    last_rule_step s d r (last_rule s d rs) (last_rule-All s d rs)
      (prefix_beq_iff (masked r.source_prefix) (masked s))
      (prefix_beq_iff (masked r.dest_prefix) (masked d))

row-All :
    (src dst : Addr) (rs : List SubnetRule) (s : Prefix)
    → IsCover src s
    → (ds : List Prefix) → All (IsCover dst) ds
    → All (Applies src dst) (row (λ d. last_rule s d rs) ds)
row-All src dst rs s cs [] h = tt
row-All src dst rs s cs (d ∷ ds) h =
    All-append (Applies src dst) (last_rule s d rs) (row (λ e. last_rule s e rs) ds)
      (All-map
        (λ r (p, q). (
          Contains-of_cover r.source_prefix src s cs p,
          Contains-of_cover r.dest_prefix dst d h.0 q,
        ))
        (last_rule s d rs) (last_rule-All s d rs))
      (row-All src dst rs s cs ds h.1)

candidates-All :
    (src dst : Addr) (rs : List SubnetRule) (ss ds : List Prefix)
    → All (IsCover src) ss
    → All (IsCover dst) ds
    → All (Applies src dst) (candidates (λ s d. last_rule s d rs) ss ds)
candidates-All src dst rs [] ds hs hd = tt
candidates-All src dst rs (s ∷ ss) ds hs hd =
    All-append (Applies src dst) (row (λ d. last_rule s d rs) ds)
      (candidates (λ t d. last_rule t d rs) ss ds) (row-All src dst rs s hs.0 ds hd)
      (candidates-All src dst rs ss ds hs.1 hd)

module _ (bart : Bart) where
  -- A rule that a match returns after a replacement contains both addresses in its prefixes. For ICMP
  -- it does not disable ICMP; for any other protocol it has no port ranges, or one that holds the
  -- port and names the packet's protocol or none.
  pub match_rule-Applies :
      (rs : List SubnetRule) (sl : SubnetLookup bart) (src dst : Addr) (port : ℕ) (proto : Protocol)
      (r : SubnetRule)
      → match_rule bart (replace_all bart rs sl) src dst port proto ≡ some r
      → Applies src dst r × Allows port proto r
  match_rule-Applies rs sl src dst port proto r h =
      let found =
        decide_rules-matched (Applies src dst) port proto
          (candidates (λ s d. last_rule s d rs) (covers (host_prefix src))
            (covers (host_prefix dst)))
          r
          (candidates-All src dst rs (covers (host_prefix src)) (covers (host_prefix dst))
            (covers_from-IsCover src (bit_len src.wide) (omega arith))
            (covers_from-IsCover dst (bit_len dst.wide) (omega arith)))
          (result_inv _ r (sym (match_rule-replace_all bart rs sl src dst port proto) ∙ h)) in
      (found.0, decide_rule-Allows port proto r found.1)
