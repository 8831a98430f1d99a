-- ===== src/Subnet/Tests.antt =====
-- The subnet theorems at concrete rules.
use newt.Prelude.{ℕ, ◌≡◌, refl, false, none, some, List, [], ◌∷◌, ℤ, pos, nat_eq}
use newt.Subnet.{Addr, Prefix, prefix_eq, masked, covers, PortRange, SubnetRule}
use newt.Subnet.Listed.{list_bart}
use newt.Subnet.Table.{
  tcp, udp, add_subnet, replace_all, match_rule, new_subnet_lookup, decide_rule, result, any_range,
  decide_rules, decide_slices, SubnetLookup,
}
use newt.Subnet.Table.Contents.{slice_at, last_rule, candidates}
use newt.Subnet.Table.Matching.{slice_at-replace_all, match_rule-replace_all}
use newt.Subnet.Table.Soundness.{match_rule-Applies, Applies, Allows}

abbrev net : ℕ → ℕ → Prefix
net value bits = record { wide = false; value = value; bits = bits }

abbrev rule : Prefix → Prefix → List PortRange → ℤ → SubnetRule
rule source dest ranges id = record {
  source_prefix = source;
  dest_prefix = dest;
  disable_icmp = false;
  rewrite_to = "";
  port_ranges = ranges;
  resource_id = id;
  protocol = "";
  http_targets = [];
  tls_cert = "";
  tls_key = "";
}

-- 10.0.0.0/8 to 10.0.0.0/16, on port 22 over TCP alone, and any source to 10.0.0.5/24.
abbrev ssh_rule : SubnetRule
ssh_rule =
    rule (net 167772160 8) (net 167772160 16) (record { min = 22; max = 22; protocol = "tcp" } ∷ [])
      (pos 1)

abbrev any_rule : SubnetRule
any_rule = rule (net 0 0) (net 167772165 24) [] (pos 2)

abbrev rules : List SubnetRule
rules = ssh_rule ∷ any_rule ∷ []

abbrev host : ℕ → Addr
host n = record { wide = false; value = n }

abbrev table : SubnetLookup list_bart
table = replace_all list_bart rules (new_subnet_lookup list_bart)

program : Unit {0}
unfolding masked match_rule decide_slices replace_all new_subnet_lookup decide_rules decide_rule
    any_range slice_at add_subnet
program = tt

match_ssh : match_rule list_bart table (host 167772161) (host 167772162) 22 tcp ≡ some ssh_rule
unfolding program
match_ssh = refl

match_web : match_rule list_bart table (host 167772161) (host 167772162) 80 tcp ≡ some any_rule
unfolding program
match_web = refl

match_none : match_rule list_bart table (host 167772161) (host 3232235777) 80 udp ≡ none
unfolding program
match_none = refl

slice_at-replace_all_example :
    slice_at list_bart (replace_all list_bart rules table) (net 0 0) (net 167772160 24)
    ≡ last_rule (net 0 0) (net 167772160 24) rules
slice_at-replace_all_example =
    slice_at-replace_all list_bart rules table (net 0 0) (net 167772160 24)

match_rule-replace_all_example :
    match_rule list_bart
      (replace_all list_bart rules table)
      (host 167772161)
      (host 167772162)
      80
      tcp
    ≡ result (
        decide_rules 80 tcp (
          candidates
            (λ s d. last_rule s d rules)
            (covers (net 167772161 32))
            (covers (net 167772162 32))))
match_rule-replace_all_example =
    match_rule-replace_all list_bart rules table (host 167772161) (host 167772162) 80 tcp

match_rule-Applies_example :
    Applies (host 167772161) (host 167772162) ssh_rule × Allows 22 tcp ssh_rule
match_rule-Applies_example =
    match_rule-Applies list_bart rules (new_subnet_lookup list_bart) (host 167772161)
      (host 167772162) 22 tcp ssh_rule match_ssh
