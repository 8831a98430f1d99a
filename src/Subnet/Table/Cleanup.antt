-- ===== src/Subnet/Table/Cleanup.antt =====
-- netstack2/subnet_lookup.go: no emptied destination trie stays in the source trie.
use newt.Prelude.{◌≡◌, ◌≢◌, inl, inr, some, List, [], ◌∷◌, arith, Option-cases, nat_eq}
use newt.Subnet.{Prefix, prefix_eq, prefix_beq_iff, masked, Bart, SubnetRule}
use newt.Subnet.Table.{
  DestTrie, SubnetLookup, dest_or_new, new_subnet_lookup, add_subnet, add_each, replace_all,
  remove_subnet,
}
use newt.Subnet.Table.Contents.{added_trie, removed_trie}

module _ (bart : Bart) where
  open bart use {
    Table, empty, get, insert, delete, size, get-empty, get-insert, get-delete, size-eq-zero_iff,
  }

  -- Every destination trie that the source trie holds has an entry.
  pub record IsClean (sl : SubnetLookup bart) : Type 0 where
    pub filled : (s : Prefix) (t : DestTrie bart) → get sl.source_trie s ≡ some t → size t.trie ≢ 0

  insert-filled :
      (t : Table (List SubnetRule)) (d : Prefix) (rs : List SubnetRule) → size (insert t d rs) ≢ 0
  insert-filled t d rs z = ground (
    arith,
    (size-eq-zero_iff (List SubnetRule) (insert t d rs)).0 z d,
    get-insert (List SubnetRule) t d d rs,
    prefix_beq_iff (masked d) (masked d),
  )

  pub new_subnet_lookup-IsClean : IsClean (new_subnet_lookup bart)
  unfolding new_subnet_lookup
  new_subnet_lookup-IsClean = record {
    filled = λ s t h. ground (arith, get-empty (DestTrie bart) s);
  }

  pub add_subnet-IsClean :
      (r : SubnetRule) (sl : SubnetLookup bart) → IsClean sl → IsClean (add_subnet bart r sl)
  unfolding add_subnet
  add_subnet-IsClean r sl x = record {
    filled = λ s t h z. ground (
      arith,
      get-insert (DestTrie bart) sl.source_trie (masked r.source_prefix) s (added_trie bart r sl),
      x.filled s t,
      insert-filled (dest_or_new bart (get sl.source_trie (masked r.source_prefix))).trie
          (masked r.dest_prefix) (r ∷ []),
    );
  }

  remove_found-IsClean :
      (p q : Prefix) (sl : SubnetLookup bart) (old : DestTrie bart)
      → get sl.source_trie (masked p) ≡ some old
      → IsClean sl
      → (s : Prefix) (t : DestTrie bart) → get (remove_subnet bart p q sl).source_trie s ≡ some t
      → size t.trie ≢ 0
  unfolding remove_subnet
  remove_found-IsClean p q sl old e x s t h z =
      let kept = insert sl.source_trie (masked p) (removed_trie bart p q old) in
      ground (
        arith,
        e,
        get-insert (DestTrie bart) sl.source_trie (masked p) s (removed_trie bart p q old),
        get-delete (DestTrie bart) kept (masked p) s,
        x.filled s t,
      )

  -- If no emptied destination trie stands in the source trie, none does after a removal.
  pub remove_subnet-IsClean :
      (p q : Prefix) (sl : SubnetLookup bart) → IsClean sl → IsClean (remove_subnet bart p q sl)
  remove_subnet-IsClean p q sl x = elim (Option-cases (get sl.source_trie (masked p))) [
    | inl e ↦ unfold remove_subnet in record { filled = λ s t h. x.filled s t (ground arith) }
    | inr (old, e) ↦ record { filled = remove_found-IsClean p q sl old e x }
  ]

  pub add_each-IsClean :
      (rs : List SubnetRule) (sl : SubnetLookup bart) → IsClean sl → IsClean (add_each bart rs sl)
  unfolding add_each
  add_each-IsClean [] sl x = x
  add_each-IsClean (r ∷ rs) sl x =
      add_each-IsClean rs (add_subnet bart r sl) (add_subnet-IsClean r sl x)

  pub replace_all-IsClean :
      (rs : List SubnetRule) (sl : SubnetLookup bart) → IsClean (replace_all bart rs sl)
  unfolding replace_all new_subnet_lookup
  replace_all-IsClean rs sl =
      add_each-IsClean rs (record { source_trie = empty (DestTrie bart) }) new_subnet_lookup-IsClean
