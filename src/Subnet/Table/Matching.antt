-- ===== src/Subnet/Table/Matching.antt =====
-- netstack2/subnet_lookup.go: what `ReplaceAll` stores, and that `Match` is the search of it.
use newt.Prelude.{ℕ, ◌≡◌, refl, List, [], ◌∷◌, arith, ap, ◌∙◌, fun_ext}
use newt.Subnet.{Addr, Prefix, prefix_eq, host_prefix, covers, Bart, SubnetRule}
use newt.Subnet.Table.{
  DestTrie, Protocol, decide_rules, SubnetLookup, add_subnet, add_each, replace_all, result,
  match_rule,
}
use newt.Subnet.Table.Contents.{
  last_rule, candidates, slice_at, slice_at-add_subnet, decide_tries-eq-decide_rules,
}

module _ (bart : Bart) where
  open bart use {empty, get-empty}

  pub slice_at-add_each :
      (rs : List SubnetRule) (sl : SubnetLookup bart) (s d : Prefix)
      → slice_at bart (add_each bart rs sl) s d
        ≡ elim (last_rule s d rs) [ [] ↦ slice_at bart sl s d | x ∷ xs ↦ x ∷ xs ]
  unfolding add_each
  slice_at-add_each [] sl s d = refl
  slice_at-add_each (r ∷ rs) sl s d =
      ground
        (arith, slice_at-add_each rs (add_subnet bart r sl) s d, slice_at-add_subnet bart r sl s d)

  -- After a replacement the table holds, under every pair of prefixes, the last rule of the list
  -- with those masked prefixes and no other, whatever it held before.
  pub slice_at-replace_all :
      (rs : List SubnetRule) (sl : SubnetLookup bart) (s d : Prefix)
      → slice_at bart (replace_all bart rs sl) s d ≡ last_rule s d rs
  unfolding replace_all slice_at
  slice_at-replace_all rs sl s d = ground (
    arith,
    slice_at-add_each rs (record { source_trie = empty (DestTrie bart) }) s d,
    get-empty (DestTrie bart) s,
  )

  -- `Match` returns the first rule that matches among the table's rules at the pairs of prefixes
  -- covering the two addresses, the longest source prefix first and then the longest destination
  -- prefix; a rule that blocks ICMP ends the search of an ICMP packet without a match.
  pub match_rule_lem :
      (sl : SubnetLookup bart) (src dst : Addr) (port : ℕ) (proto : Protocol)
      → match_rule bart sl src dst port proto
        ≡ result (
            decide_rules port proto
              (candidates (slice_at bart sl) (covers (host_prefix src)) (covers (host_prefix dst))))
  unfolding match_rule
  match_rule_lem sl src dst port proto =
      ap result
        (decide_tries-eq-decide_rules bart port proto sl (host_prefix src) (host_prefix dst))

  -- After a replacement a match is decided by the new list alone.
  pub match_rule-replace_all :
      (rs : List SubnetRule) (sl : SubnetLookup bart) (src dst : Addr) (port : ℕ) (proto : Protocol)
      → match_rule bart (replace_all bart rs sl) src dst port proto
        ≡ result (
            decide_rules port proto (
              candidates
                (λ s d. last_rule s d rs)
                (covers (host_prefix src))
                (covers (host_prefix dst))))
  match_rule-replace_all rs sl src dst port proto =
      match_rule_lem (replace_all bart rs sl) src dst port proto
      ∙ ap
          (λ at. result (
            decide_rules port proto
              (candidates at (covers (host_prefix src)) (covers (host_prefix dst)))))
          (fun_ext λ s. fun_ext λ d. slice_at-replace_all rs sl s d)
