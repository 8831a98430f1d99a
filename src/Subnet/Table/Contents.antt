-- ===== src/Subnet/Table/Contents.antt =====
-- netstack2/subnet_lookup.go: the table as a map from pairs of masked prefixes to rules, and `Match`
-- as a search of that map.
use native.Mathlib.Nat.{mul-div_cancel, one-le-pow}
use newt.Prelude.{
  ℕ, ◌*◌, ◌/◌, ◌^◌, ◌-◌, ◌<◌, ◌≡◌, refl, inl, inr, ◌&&◌, Option, none, some, List, [], ◌∷◌, ◌++◌,
  arith, ◌==◌, if◌then◌else◌, Option-cases, sym, ◌∙◌, ap,
}
use newt.Subnet.{
  Prefix, prefix_eq, prefix_beq_iff, masked, covers, collect, Bart, SubnetRule, bit_len,
}
use newt.Subnet.Table.{
  Protocol, or_else, decide_rules, DestTrie, SubnetLookup, dest_or_new, without, add_subnet,
  remove_subnet, decide_slices, decide_tries,
}

div-mul-div-mul : (v k : ℕ) → 0 < k → v / k * k / k * k ≡ v / k * k
div-mul-div-mul v k h = ap (λ x. x * k) (mul-div_cancel (v / k) h)

pub masked-masked : (p : Prefix) → masked (masked p) ≡ masked p
unfolding masked
masked-masked p =
    let n = bit_len p.wide - p.bits in
    ap (λ v. record p { value = v })
      (div-mul-div-mul p.value (2 ^ n) (one-le-pow n 2 (omega arith)))

-- The last rule of a list with the given masked prefixes, as the slice that the table stores.
abbrev pub last_rule : Prefix → Prefix → List SubnetRule → List SubnetRule
last_rule s d [] = []
last_rule s d (r ∷ rs) =
    let later = last_rule s d rs in
    elim later [
      | x ∷ xs ↦ x ∷ xs
      | [] ↦
          if masked r.source_prefix == masked s && masked r.dest_prefix == masked d
          then r ∷ []
          else []
    ]

-- The rules of a map at all pairs of prefixes covering the two addresses: by the source prefix
-- first, each from the longest to the shortest.
abbrev pub row : (Prefix → List SubnetRule) → List Prefix → List SubnetRule
row at [] = []
row at (d ∷ ds) = at d ++ row at ds

abbrev pub candidates :
    (Prefix → Prefix → List SubnetRule) → List Prefix → List Prefix → List SubnetRule
candidates at [] ds = []
candidates at (s ∷ ss) ds = row (at s) ds ++ candidates at ss ds

decide_rules-append :
    (port : ℕ) (proto : Protocol) (xs ys : List SubnetRule)
    → decide_rules port proto (xs ++ ys)
      ≡ or_else (decide_rules port proto xs) (decide_rules port proto ys)
unfolding decide_rules
decide_rules-append port proto [] ys = refl
decide_rules-append port proto (x ∷ xs) ys = ground (arith, decide_rules-append port proto xs ys)

module _ (bart : Bart) where
  open bart use {
    Table, empty, get, insert, delete, size, supernets, get-empty, get-insert, get-delete,
    get-masked, size-eq-zero_iff, supernets_lem,
  }

  abbrev pub slice_of : Option (DestTrie bart) → Prefix → List SubnetRule
  slice_of none d = []
  slice_of (some t) d = elim (get t.trie d) [ none ↦ [] | some rs ↦ rs ]

  -- What the table holds for a pair of prefixes.
  unfoldable pub slice_at : SubnetLookup bart → Prefix → Prefix → List SubnetRule
  slice_at sl s d = slice_of (get sl.source_trie s) d

  get_of_masked :
      (V : Type 0) (t : Table V) (p q : Prefix) → masked p ≡ masked q → get t p ≡ get t q
  get_of_masked V t p q e = sym (get-masked V t p) ∙ ap (get t) e ∙ get-masked V t q

  abbrev pub added_trie : SubnetRule → SubnetLookup bart → DestTrie bart
  added_trie r sl =
      let source = masked r.source_prefix in
      let dest = masked r.dest_prefix in
      let d = dest_or_new bart (get sl.source_trie source) in
      record {
        trie = insert d.trie dest (r ∷ []);
        rules = without bart source dest d.rules ++ r ∷ [];
      }

  -- Adding a rule stores it alone under its masked prefixes and changes nothing else.
  pub slice_at-add_subnet :
      (r : SubnetRule) (sl : SubnetLookup bart) (s d : Prefix)
      → slice_at (add_subnet bart r sl) s d ≡ (
          if masked r.source_prefix == masked s && masked r.dest_prefix == masked d
          then r ∷ []
          else slice_at sl s d)
  unfolding slice_at add_subnet
  slice_at-add_subnet r sl s d =
      let source = masked r.source_prefix in
      let dest = masked r.dest_prefix in
      let old = dest_or_new bart (get sl.source_trie source) in
      ground (
        arith,
        get-insert (DestTrie bart) sl.source_trie source s (added_trie r sl),
        get-insert (List SubnetRule) old.trie dest d (r ∷ []),
        get-empty (List SubnetRule) d,
        masked-masked r.source_prefix,
        masked-masked r.dest_prefix,
        prefix_beq_iff (masked r.source_prefix) (masked s),
        get_of_masked (DestTrie bart) sl.source_trie source s,
      )

  abbrev pub removed_trie : Prefix → Prefix → DestTrie bart → DestTrie bart
  removed_trie p q t = record {
    trie = delete t.trie (masked q);
    rules = without bart (masked p) (masked q) t.rules;
  }

  slice_of-removed_trie :
      (p q d : Prefix) (t : DestTrie bart)
      → slice_of (some (removed_trie p q t)) d
        ≡ (if masked q == masked d then [] else slice_of (some t) d)
  slice_of-removed_trie p q d t =
      ground (arith, get-delete (List SubnetRule) t.trie (masked q) d, masked-masked q)

  -- An emptied destination trie holds nothing, so its entry may go.
  slice_of_emptied :
      (p q d : Prefix) (t : DestTrie bart)
      → size (delete t.trie (masked q)) ≡ 0
      → slice_of (some (removed_trie p q t)) d ≡ []
  slice_of_emptied p q d t z =
      ground (arith, (size-eq-zero_iff (List SubnetRule) (delete t.trie (masked q))).0 z d)

  -- Removing a pair of prefixes leaves nothing under it and changes nothing else.
  pub slice_at-remove_subnet :
      (p q : Prefix) (sl : SubnetLookup bart) (s d : Prefix)
      → slice_at (remove_subnet bart p q sl) s d
        ≡ (if masked p == masked s && masked q == masked d then [] else slice_at sl s d)
  unfolding slice_at remove_subnet
  slice_at-remove_subnet p q sl s d = elim (Option-cases (get sl.source_trie (masked p))) [
    | inl e ↦ ground (
      arith,
      prefix_beq_iff (masked p) (masked s),
      get_of_masked (DestTrie bart) sl.source_trie (masked p) s,
      masked-masked p,
    )
    | inr (t, e) ↦
        let kept = insert sl.source_trie (masked p) (removed_trie p q t) in
        ground (
          arith,
          get-insert (DestTrie bart) sl.source_trie (masked p) s (removed_trie p q t),
          get-delete (DestTrie bart) kept (masked p) s,
          slice_of-removed_trie p q d t,
          slice_of_emptied p q d t,
          prefix_beq_iff (masked p) (masked s),
          get_of_masked (DestTrie bart) sl.source_trie (masked p) s,
          masked-masked p,
        )
  ]

  decide_slices-collect :
      (port : ℕ) (proto : Protocol) (t : DestTrie bart) (ds : List Prefix)
      → decide_slices port proto (collect (get t.trie) ds)
        ≡ decide_rules port proto (row (slice_of (some t)) ds)
  unfolding decide_slices
  decide_slices-collect port proto t [] = unfold decide_rules in refl
  decide_slices-collect port proto t (d ∷ ds) = elim (Option-cases (get t.trie d)) [
    | inl e ↦ ground (arith, decide_slices-collect port proto t ds)
    | inr (rs, e) ↦ ground (
      arith,
      decide_slices-collect port proto t ds,
      decide_rules-append port proto rs (row (slice_of (some t)) ds),
    )
  ]

  row-none : (ds : List Prefix) → row (slice_of none) ds ≡ []
  row-none [] = refl
  row-none (d ∷ ds) = row-none ds

  decide_tries-collect :
      (port : ℕ) (proto : Protocol) (sl : SubnetLookup bart) (dst : Prefix) (ss : List Prefix)
      → decide_tries bart port proto dst (collect (get sl.source_trie) ss)
        ≡ decide_rules port proto (candidates (slice_at sl) ss (covers dst))
  unfolding decide_tries slice_at
  decide_tries-collect port proto sl dst [] = unfold decide_rules in refl
  decide_tries-collect port proto sl dst (s ∷ ss) = elim (Option-cases (get sl.source_trie s)) [
    | inl e ↦ ground (arith, decide_tries-collect port proto sl dst ss, row-none (covers dst))
    | inr (t, e) ↦ ground (
      arith,
      decide_tries-collect port proto sl dst ss,
      supernets_lem (List SubnetRule) t.trie dst,
      decide_slices-collect port proto t (covers dst),
      decide_rules-append port proto (row (slice_of (some t)) (covers dst))
          (candidates (slice_at sl) ss (covers dst)),
    )
  ]

  pub decide_tries-eq-decide_rules :
      (port : ℕ) (proto : Protocol) (sl : SubnetLookup bart) (src dst : Prefix)
      → decide_tries bart port proto dst (supernets sl.source_trie src)
        ≡ decide_rules port proto (candidates (slice_at sl) (covers src) (covers dst))
  decide_tries-eq-decide_rules port proto sl src dst =
      ap (decide_tries bart port proto dst) (supernets_lem (DestTrie bart) sl.source_trie src)
      ∙ decide_tries-collect port proto sl dst (covers src)
