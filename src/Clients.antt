-- ===== src/Clients.antt =====
-- clients/clients.go: the rules that the targets of the WireGuard service become, in the packet proxy
-- of Dnat. `netip.ParsePrefix` is a function that is passed in. The service has a netstack.
pub mod Rules
pub mod Bandwidth
pub mod Peers
mod Tests
use newt.Prelude.{
  ℕ, String, Bool, true, false, Option, none, some, List, [], ◌∷◌, ◌++◌, ℤ, ◌==◌, nat_eq, string_eq,
  if◌then◌else◌, length, Bool-cases,
}
use newt.Prelude.GoMap.{GoMap, lookup, insert, delete}
use newt.Subnet.{Prefix, PortRange, SubnetRule, Bart}
use newt.Dnat.{Ipv4}
use newt.Dnat.Packets.{ProxyHandler, add_subnet_rule, remove_subnet_rule, replace_all_subnet_rules}

pub record Target : Type 0 where
  pub source_prefix : String
  pub source_prefixes : List String
  pub dest_prefix : String
  pub rewrite_to : String
  pub disable_icmp : Bool
  pub port_range : List PortRange
  pub resource_id : ℤ
  pub protocol : String
  pub http_targets : List String
  pub tls_cert : String
  pub tls_key : String
  pub tls_cert_id : String

pub record CertPair : Type 0 where
  pub cert : String
  pub key : String

pub record CertData : Type 0 where
  pub id : String
  pub cert : String
  pub key : String

abbrev pub Certs : Type 0
Certs = GoMap String CertPair

abbrev pub ParsePrefix : Type 0
ParsePrefix = String → Option Prefix

unfoldable pub add_certs : List CertData → Certs → Certs
add_certs [] m = m
add_certs (c ∷ l) m = add_certs l (insert c.id (record { cert = c.cert; key = c.key }) m)

unfoldable pub set_certs : List CertData → Certs
unfolding add_certs
set_certs l = add_certs l []

unfoldable pub remove_certs : List String → Certs → Certs
remove_certs [] m = m
remove_certs (id ∷ l) m = remove_certs l (delete id m)

unfoldable pub resolve_tls : Certs → Target → CertPair
resolve_tls certs t =
    if t.tls_cert_id == ""
    then record { cert = t.tls_cert; key = t.tls_key }
    else elim (lookup t.tls_cert_id certs) [
      | none ↦ record { cert = t.tls_cert; key = t.tls_key }
      | some pair ↦ pair
    ]

unfoldable pub resolve_source_prefixes : Target → List String
resolve_source_prefixes t =
    if length t.source_prefixes == 0
    then (if t.source_prefix == "" then [] else t.source_prefix ∷ [])
    else t.source_prefixes

-- the rule of one source prefix
unfoldable pub target_rule : Certs → Target → Prefix → Prefix → SubnetRule
unfolding resolve_tls
target_rule certs t source dest =
    let pair = resolve_tls certs t in
    record {
      source_prefix = source;
      dest_prefix = dest;
      disable_icmp = t.disable_icmp;
      rewrite_to = t.rewrite_to;
      port_ranges = t.port_range;
      resource_id = t.resource_id;
      protocol = t.protocol;
      http_targets = t.http_targets;
      tls_cert = pair.cert;
      tls_key = pair.key;
    }

-- the loop over the source prefixes; one that does not parse is skipped
unfoldable pub source_rules : ParsePrefix → Certs → Target → Prefix → List String → List SubnetRule
unfolding target_rule
source_rules parse certs t dest [] = []
source_rules parse certs t dest (sp ∷ l) =
    let rest = source_rules parse certs t dest l in
    elim (parse sp) [ none ↦ rest | some source ↦ target_rule certs t source dest ∷ rest ]

-- the loop over the targets
unfoldable pub target_rules : ParsePrefix → Certs → List Target → List SubnetRule
unfolding source_rules resolve_source_prefixes
target_rules parse certs [] = []
target_rules parse certs (t ∷ l) =
    let rest = target_rules parse certs l in
    elim (parse t.dest_prefix) [
      | none ↦ rest
      | some dest ↦ source_rules parse certs t dest (resolve_source_prefixes t) ++ rest
    ]

-- the pairs of prefixes that a removal takes away
unfoldable pub source_pairs : ParsePrefix → Prefix → List String → List (Prefix × Prefix)
source_pairs parse dest [] = []
source_pairs parse dest (sp ∷ l) =
    let rest = source_pairs parse dest l in
    elim (parse sp) [ none ↦ rest | some source ↦ (source, dest) ∷ rest ]

unfoldable pub target_pairs : ParsePrefix → List Target → List (Prefix × Prefix)
unfolding source_pairs resolve_source_prefixes
target_pairs parse [] = []
target_pairs parse (t ∷ l) =
    let rest = target_pairs parse l in
    elim (parse t.dest_prefix) [
      | none ↦ rest
      | some dest ↦ source_pairs parse dest (resolve_source_prefixes t) ++ rest
    ]

module _ (bart : Bart) (ip : Ipv4) (parse : ParsePrefix) where
  unfoldable pub add_rules : List SubnetRule → ProxyHandler bart ip → ProxyHandler bart ip
  add_rules [] p = p
  add_rules (r ∷ l) p = add_rules l (add_subnet_rule bart ip r p)

  unfoldable pub remove_pairs : List (Prefix × Prefix) → ProxyHandler bart ip → ProxyHandler bart ip
  remove_pairs [] p = p
  remove_pairs ((source, dest) ∷ l) p = remove_pairs l (remove_subnet_rule bart ip source dest p)

  unfoldable pub sync_targets : Certs → List Target → ProxyHandler bart ip → ProxyHandler bart ip
  unfolding target_rules
  sync_targets certs targets p =
      replace_all_subnet_rules bart ip (target_rules parse certs targets) p

  unfoldable pub handle_add_target :
      Certs → List Target → ProxyHandler bart ip → ProxyHandler bart ip
  unfolding add_rules target_rules
  handle_add_target certs targets p = add_rules (target_rules parse certs targets) p

  unfoldable pub handle_remove_target : List Target → ProxyHandler bart ip → ProxyHandler bart ip
  unfolding remove_pairs target_pairs
  handle_remove_target targets p = remove_pairs (target_pairs parse targets) p

  unfoldable pub handle_update_target :
      Certs → List Target → List Target → ProxyHandler bart ip → ProxyHandler bart ip
  unfolding add_rules target_rules remove_pairs target_pairs
  handle_update_target certs old new p =
      add_rules (target_rules parse certs new) (remove_pairs (target_pairs parse old) p)

  -- the source prefixes of a target in `ensureTargets`; one that does not parse ends it
  unfoldable pub ensure_sources :
      Certs → Target → Prefix → List String → ProxyHandler bart ip → Bool × ProxyHandler bart ip
  unfolding target_rule
  ensure_sources certs t dest [] p = (true, p)
  ensure_sources certs t dest (sp ∷ l) p = elim (parse sp) [
    | none ↦ (false, p)
    | some source ↦
        ensure_sources certs t dest l (add_subnet_rule bart ip (target_rule certs t source dest) p)
  ]

  unfoldable pub ensure_targets :
      Certs → List Target → ProxyHandler bart ip → Bool × ProxyHandler bart ip
  unfolding ensure_sources resolve_source_prefixes
  ensure_targets certs [] p = (true, p)
  ensure_targets certs (t ∷ l) p = elim (parse t.dest_prefix) [
    | none ↦ (false, p)
    | some dest ↦
        let r = ensure_sources certs t dest (resolve_source_prefixes t) p in
        elim r.0 [ false ↦ (false, r.1) | true ↦ ensure_targets certs l r.1 ]
  ]
