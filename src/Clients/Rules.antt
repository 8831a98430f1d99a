-- ===== src/Clients/Rules.antt =====
-- clients/clients.go: the rule table after the service's messages.
use newt.Prelude.{
  ◌≡◌, refl, String, Bool, true, false, ◌&&◌, ◌||◌, List, [], ◌∷◌, ◌++◌, ◌==◌, if◌then◌else◌, arith,
  ap, ◌∙◌, Option-cases, Bool-cases, inl, inr,
}
use newt.Subnet.{Prefix, prefix_eq, masked, SubnetRule, Bart}
use newt.Subnet.Table.{new_subnet_lookup, add_subnet, add_each, remove_subnet, replace_all}
use newt.Subnet.Table.Contents.{slice_at, slice_at-remove_subnet, last_rule}
use newt.Subnet.Table.Matching.{slice_at-add_each}
use newt.Dnat.{Ipv4}
use newt.Dnat.Packets.{ProxyHandler, add_subnet_rule, remove_subnet_rule, replace_all_subnet_rules}
use newt.Clients.{
  Target, Certs, ParsePrefix, resolve_source_prefixes, target_rule, source_rules, target_rules,
  target_pairs, add_rules, remove_pairs, sync_targets, handle_update_target, ensure_sources,
  ensure_targets,
}

-- Whether a list of pairs has one with the same masked prefixes.
abbrev pub has_pair : Prefix → Prefix → List (Prefix × Prefix) → Bool
has_pair s d [] = false
has_pair s d ((p, q) ∷ l) = (masked p == masked s && masked q == masked d) || has_pair s d l

module _ (bart : Bart) (ip : Ipv4) (parse : ParsePrefix) where
  add_rules-add_each :
      (rs : List SubnetRule) (p : ProxyHandler bart ip)
      → p.enabled ≡ true
      → add_rules bart ip parse rs p ≡ record p { subnet_lookup = add_each bart rs p.subnet_lookup }
  unfolding add_rules add_subnet_rule add_each
  add_rules-add_each [] p on = refl
  add_rules-add_each (r ∷ rs) p on =
      let p1 : ProxyHandler bart ip = record p {
        subnet_lookup = add_subnet bart r p.subnet_lookup;
      } in
      let rest = add_rules-add_each rs p1 on in ground (arith, rest)

  add_rules-append :
      (a b : List SubnetRule) (p : ProxyHandler bart ip)
      → add_rules bart ip parse (a ++ b) p ≡ add_rules bart ip parse b (add_rules bart ip parse a p)
  unfolding add_rules
  add_rules-append [] b p = refl
  add_rules-append (r ∷ a) b p = add_rules-append a b (add_subnet_rule bart ip r p)

  ensure_sources-add_rules :
      (certs : Certs) (t : Target) (dest : Prefix) (l : List String) (p : ProxyHandler bart ip)
      → (ensure_sources bart ip parse certs t dest l p).0 ≡ true
      → (ensure_sources bart ip parse certs t dest l p).1
        ≡ add_rules bart ip parse (source_rules parse certs t dest l) p
  unfolding ensure_sources source_rules add_rules
  ensure_sources-add_rules certs t dest [] p h = refl
  ensure_sources-add_rules certs t dest (sp ∷ l) p h = elim (Option-cases (parse sp)) [
    | inl e ↦ ground arith
    | inr (source, e) ↦
        let p1 = add_subnet_rule bart ip (target_rule certs t source dest) p in
        ground (arith, e, ensure_sources-add_rules certs t dest l p1)
  ]

  ensure_targets-add_rules :
      (certs : Certs) (l : List Target) (p : ProxyHandler bart ip)
      → (ensure_targets bart ip parse certs l p).0 ≡ true
      → (ensure_targets bart ip parse certs l p).1
        ≡ add_rules bart ip parse (target_rules parse certs l) p
  unfolding ensure_targets target_rules
  ensure_targets-add_rules certs [] p h = unfold add_rules in refl
  ensure_targets-add_rules certs (t ∷ l) p h = elim (Option-cases (parse t.dest_prefix)) [
    | inl e ↦ ground arith
    | inr (dest, e) ↦
        let sps = resolve_source_prefixes t in
        let r = ensure_sources bart ip parse certs t dest sps p in
        elim (Bool-cases r.0) [
          | inr stopped ↦ ground arith
          | inl went_on ↦ ground (
            arith,
            ensure_sources-add_rules certs t dest sps p went_on,
            ensure_targets-add_rules certs l r.1,
            add_rules-append (source_rules parse certs t dest sps) (target_rules parse certs l) p,
          )
        ]
  ]

  -- On a handler without rules, setting the targets up one by one, where that succeeds, and a sync to
  -- the same targets make the same handler.
  pub ensure_targets-eq-sync_targets :
      (certs : Certs) (l : List Target) (p : ProxyHandler bart ip)
      → p.enabled ≡ true
      → p.subnet_lookup ≡ new_subnet_lookup bart
      → (ensure_targets bart ip parse certs l p).0 ≡ true
      → (ensure_targets bart ip parse certs l p).1 ≡ sync_targets bart ip parse certs l p
  unfolding sync_targets replace_all_subnet_rules replace_all new_subnet_lookup
  ensure_targets-eq-sync_targets certs l p on empty h =
      ensure_targets-add_rules certs l p h
      ∙ add_rules-add_each (target_rules parse certs l) p on
      ∙ ground (arith, ap (add_each bart (target_rules parse certs l)) empty)

  slice_at-remove_pairs :
      (l : List (Prefix × Prefix)) (p : ProxyHandler bart ip) (s d : Prefix)
      → p.enabled ≡ true
      → (slice_at bart (remove_pairs bart ip parse l p).subnet_lookup s d
          ≡ (if has_pair s d l then [] else slice_at bart p.subnet_lookup s d))
        × ((remove_pairs bart ip parse l p).enabled ≡ true)
  unfolding remove_pairs remove_subnet_rule
  slice_at-remove_pairs [] p s d on = (refl, on)
  slice_at-remove_pairs ((source, dest) ∷ l) p s d on =
      let p1 : ProxyHandler bart ip = record p {
        subnet_lookup = remove_subnet bart source dest p.subnet_lookup;
      } in
      ground (
        arith,
        slice_at-remove_pairs l p1 s d on,
        slice_at-remove_subnet bart source dest p.subnet_lookup s d,
      )

  -- An update leaves, under each pair of masked prefixes, the last rule that the new targets give for
  -- it; where they give none, nothing if the old targets name the pair, and else what was there.
  pub slice_at-handle_update_target :
      (certs : Certs) (old new : List Target) (p : ProxyHandler bart ip) (s d : Prefix)
      → p.enabled ≡ true
      → slice_at bart (handle_update_target bart ip parse certs old new p).subnet_lookup s d
        ≡ elim (last_rule s d (target_rules parse certs new)) [
          | [] ↦
              if has_pair s d (target_pairs parse old)
              then []
              else slice_at bart p.subnet_lookup s d
          | x ∷ xs ↦ x ∷ xs
        ]
  unfolding handle_update_target
  slice_at-handle_update_target certs old new p s d on =
      let p1 = remove_pairs bart ip parse (target_pairs parse old) p in
      let cleared = slice_at-remove_pairs (target_pairs parse old) p s d on in
      let added = add_rules-add_each (target_rules parse certs new) p1 cleared.1 in
      ap (λ (x : ProxyHandler bart ip). slice_at bart x.subnet_lookup s d) added
      ∙ slice_at-add_each bart (target_rules parse certs new) p1.subnet_lookup s d
      ∙ ground (arith, cleared.0)
