-- ===== src/Subnet/Table.antt =====
-- netstack2/subnet_lookup.go: `SubnetLookup` over the two levels of prefix tables. A `destTrie` is
-- reached from its entry of the source table alone, so the writes through its pointer are writes of
-- that entry. The locks make each operation one step.
pub mod Contents
pub mod Cleanup
pub mod Matching
pub mod Soundness
use newt.Prelude.{
  ℕ, ◌≡◌, String, Bool, true, false, not, ◌&&◌, ◌||◌, Option, none, some, List, [], ◌∷◌, ◌++◌, ◌==◌,
  nat_eq, string_eq, if◌then◌else◌, leb, keep_if, length,
}
use newt.Subnet.{Addr, Prefix, prefix_eq, masked, host_prefix, Bart, PortRange, SubnetRule}

-- the transport protocol numbers that the program names
pub data Protocol : Type 0 where
  tcp udp icmp4 icmp6 : Protocol
  other : ℕ → Protocol

-- What a rule says of a packet: it matches, the search ends without a match, or it goes on.
pub data Decision : Type 0 where
  matched : SubnetRule → Decision
  refused : Decision
  undecided : Decision

unfoldable pub prefix_equal : Prefix → Prefix → Bool
prefix_equal a b = masked a == masked b

-- the test on the port range's protocol
abbrev pub allows : String → Protocol → Bool
allows s tcp = s == "" || s == "tcp"
allows s udp = s == "" || s == "udp"
allows s _ = s == ""

unfoldable pub any_range : ℕ → Protocol → List PortRange → Bool
any_range port proto [] = false
any_range port proto (r ∷ rs) =
    let rest = any_range port proto rs in
    if leb r.min port && leb port r.max && allows r.protocol proto then true else rest

abbrev pub is_icmp : Protocol → Bool
is_icmp icmp4 = true
is_icmp icmp6 = true
is_icmp _ = false

-- the body of the innermost loop
unfoldable pub decide_rule : ℕ → Protocol → SubnetRule → Decision
decide_rule port proto rule =
    if is_icmp proto
    then (if rule.disable_icmp then refused else matched rule)
    else if length rule.port_ranges == 0
    then matched rule
    else if any_range port proto rule.port_ranges
    then matched rule
    else undecided

-- An earlier decision ends the search.
abbrev pub or_else : Decision → Decision → Decision
or_else undecided d = d
or_else d _ = d

unfoldable pub decide_rules : ℕ → Protocol → List SubnetRule → Decision
decide_rules port proto [] = undecided
decide_rules port proto (r ∷ rs) =
    let rest = decide_rules port proto rs in or_else (decide_rule port proto r) rest

-- the loop over the destination tries' rule slices
unfoldable pub decide_slices : ℕ → Protocol → List (List SubnetRule) → Decision
decide_slices port proto [] = undecided
decide_slices port proto (rs ∷ more) =
    let rest = decide_slices port proto more in or_else (decide_rules port proto rs) rest

-- the function's result: `nil` for `refused` and `undecided` alike
abbrev pub result : Decision → Option SubnetRule
result (matched r) = some r
result _ = none

module _ (bart : Bart) where
  open bart use {Table, empty, get, insert, delete, size, supernets}

  pub record DestTrie : Type 0 where
    pub trie : Table (List SubnetRule)
    pub rules : List SubnetRule

  pub record SubnetLookup : Type 0 where
    pub source_trie : Table DestTrie

  unfoldable pub new_subnet_lookup : SubnetLookup
  new_subnet_lookup = record { source_trie = empty DestTrie }

  -- the loop that drops the old rule from `destTriePtr.rules`
  unfoldable pub without : Prefix → Prefix → List SubnetRule → List SubnetRule
  unfolding prefix_equal
  without source dest rules =
      keep_if
        (λ r. not (prefix_equal r.dest_prefix dest) || not (prefix_equal r.source_prefix source))
        rules

  abbrev pub dest_or_new : Option DestTrie → DestTrie
  dest_or_new none = record { trie = empty (List SubnetRule); rules = [] }
  dest_or_new (some d) = d

  unfoldable pub add_subnet : SubnetRule → SubnetLookup → SubnetLookup
  unfolding without
  add_subnet rule sl =
      let source = masked rule.source_prefix in
      let dest = masked rule.dest_prefix in
      let d = dest_or_new (get sl.source_trie source) in
      record {
        source_trie = insert sl.source_trie source (record {
          trie = insert d.trie dest (rule ∷ []);
          rules = without source dest d.rules ++ rule ∷ [];
        });
      }

  unfoldable pub add_each : List SubnetRule → SubnetLookup → SubnetLookup
  add_each [] sl = sl
  add_each (r ∷ rs) sl = add_each rs (add_subnet r sl)

  unfoldable pub replace_all : List SubnetRule → SubnetLookup → SubnetLookup
  unfolding add_each
  replace_all rules sl = add_each rules (record { source_trie = empty DestTrie })

  unfoldable pub remove_subnet : Prefix → Prefix → SubnetLookup → SubnetLookup
  unfolding without
  remove_subnet source_prefix dest_prefix sl =
      let source = masked source_prefix in
      let dest = masked dest_prefix in
      elim (get sl.source_trie source) [
        | none ↦ sl
        | some d ↦
            let trie' = delete d.trie dest in
            let d' : DestTrie = record { trie = trie'; rules = without source dest d.rules } in
            let kept = insert sl.source_trie source d' in
            record { source_trie = if size trie' == 0 then delete kept source else kept }
      ]

  unfoldable pub decide_tries : ℕ → Protocol → Prefix → List DestTrie → Decision
  decide_tries port proto dst [] = undecided
  decide_tries port proto dst (d ∷ more) =
      let rest = decide_tries port proto dst more in
      or_else (decide_slices port proto (supernets d.trie dst)) rest

  unfoldable pub match_rule : SubnetLookup → Addr → Addr → ℕ → Protocol → Option SubnetRule
  unfolding decide_tries
  match_rule sl src dst port proto =
      result
        (decide_tries port proto (host_prefix dst) (supernets sl.source_trie (host_prefix src)))
