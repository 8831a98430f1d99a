-- ===== src/Holepunch/Peers.antt =====
-- holepunch/holepunch.go: `RemoveExitNodesByPeer`.
use newt.Prelude.{
  ◌+◌, ◌≡◌, refl, String, false, not, Option, none, some, List, [], ◌∷◌, ℤ, ◌==◌, int_eq, nat_eq,
  string_eq, if◌then◌else◌, arith, length, length-keep_if-le, Bool-cases, inl, inr, sym, ◌∙◌,
}
use newt.Prelude.GoMap.{GoMap, lookup, elem, Distinct, lookup-absent}
use newt.Holepunch.{
  ExitNode, Manager, without_peer, leave_node, leave_nodes, remove_exit_nodes_by_peer, signal,
}

-- What is left of a node: a node without the peer is whole, one that has only the peer is gone.
abbrev pub left : ℤ → Option ExitNode → Option ExitNode
left id none = none
left id (some node) =
    if elem id node.site_ids
    then (if length (without_peer id node.site_ids) == 0
        then none
        else some (record node { site_ids = without_peer id node.site_ids }))
    else some node

elem-without_peer : (id : ℤ) (l : List ℤ) → elem id (without_peer id l) ≡ false
elem-without_peer id [] = refl
elem-without_peer id (x ∷ l) = ground (arith, elem-without_peer id l)

length-without_peer :
    (id : ℤ) (l : List ℤ) → length (without_peer id l) ≡ length l → elem id l ≡ false
length-without_peer id [] h = refl
length-without_peer id (x ∷ l) h =
    ground (arith, length-without_peer id l, length-keep_if-le (λ x. not (x == id)) l)

length-without_peer_absent :
    (id : ℤ) (l : List ℤ) → elem id l ≡ false → length (without_peer id l) ≡ length l
length-without_peer_absent id [] h = refl
length-without_peer_absent id (x ∷ l) h = ground (arith, length-without_peer_absent id l)

leave_node-left : (id : ℤ) (node : ExitNode) → leave_node id node ≡ left id (some node)
unfolding leave_node
leave_node-left id node =
    ground
      (arith, length-without_peer id node.site_ids, length-without_peer_absent id node.site_ids)

lookup-leave_nodes :
    (id : ℤ) (m : GoMap String ExitNode) (k : String)
    → Distinct m
    → lookup k (leave_nodes id m).0 ≡ left id (lookup k m)
unfolding leave_nodes
lookup-leave_nodes id [] k d = refl
lookup-leave_nodes id ((endpoint, node) ∷ m) k d =
    let rest = lookup-leave_nodes id m k d.1 in
    let own = leave_node-left id node in
    elim (Bool-cases (endpoint == k)) [
      | inl e ↦ ground (arith, rest, lookup-absent endpoint k m d.0 e, own)
      | inr e ↦ ground (arith, rest, own)
    ]

length-leave_nodes :
    (id : ℤ) (m : GoMap String ExitNode)
    → (leave_nodes id m).1 + length (leave_nodes id m).0 ≡ length m
unfolding leave_nodes
length-leave_nodes id [] = refl
length-leave_nodes id ((endpoint, node) ∷ m) = ground (arith, length-leave_nodes id m)

left-without :
    (id : ℤ) (before : Option ExitNode) (node : ExitNode)
    → left id before ≡ some node
    → elem id node.site_ids ≡ false
left-without id none node h = cc
left-without id (some old) node h = ground (arith, elem-without_peer id old.site_ids)

exit_nodes-removed :
    (id : ℤ) (m : Manager)
    → (remove_exit_nodes_by_peer id m).1.exit_nodes ≡ (leave_nodes id m.exit_nodes).0
unfolding remove_exit_nodes_by_peer signal
exit_nodes-removed id m = ground arith

count-removed :
    (id : ℤ) (m : Manager) → (remove_exit_nodes_by_peer id m).0 ≡ (leave_nodes id m.exit_nodes).1
unfolding remove_exit_nodes_by_peer
count-removed id m = refl

-- When a peer leaves: each node keeps its other sites, a node that had only this one is removed, no
-- node that is left has the peer, and the number returned is that of the nodes that were removed.
pub remove_exit_nodes_by_peer_lem :
    (id : ℤ) (m : Manager) (k : String)
    → Distinct m.exit_nodes
    → (lookup k (remove_exit_nodes_by_peer id m).1.exit_nodes ≡ left id (lookup k m.exit_nodes))
      × ((node : ExitNode)
          → lookup k (remove_exit_nodes_by_peer id m).1.exit_nodes ≡ some node
          → elem id node.site_ids ≡ false)
      × ((remove_exit_nodes_by_peer id m).0 + length (remove_exit_nodes_by_peer id m).1.exit_nodes
          ≡ length m.exit_nodes)
remove_exit_nodes_by_peer_lem id m k d =
    let at = lookup-leave_nodes id m.exit_nodes k d in
    rw (exit_nodes-removed id m, count-removed id m)
      (
        at,
        λ node found. left-without id (lookup k m.exit_nodes) node (sym at ∙ found),
        length-leave_nodes id m.exit_nodes,
      )
