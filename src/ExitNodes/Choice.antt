-- ===== src/ExitNodes/Choice.antt =====
-- exitnode/exitnode.go: which nodes' results are returned.
use newt.Prelude.{
  ℕ, ◌+◌, ◌≡◌, ◌≢◌, refl, Bool, true, false, ◌||◌, ◌&&◌, not, ltb, is_some, Option, none, some,
  List, [], ◌∷◌, ◌==◌, nat_eq, nat_beq_iff, arith, if◌then◌else◌, length, Option-cases, Bool-cases,
  inl, inr, ap, ◌∙◌, ◌≤◌,
}
use newt.HostPort.{Text, text_eq, text_beq_iff}
use newt.ExitNodes.{
  ExitNode, PingResult, Get, ping_each, unpinged, select_node, previous_from, count_good,
  without_index, exclude_previous, ping_exit_nodes,
}

-- Whether a list holds the result of a node that answered without an error, in a millisecond or more.
abbrev pub any_good : List PingResult → Bool
any_good [] = false
any_good (r ∷ l) = ltb 0 r.latency_ms && r.error == [] || any_good l

abbrev pub any_connected : List PingResult → Bool
any_connected [] = false
any_connected (r ∷ l) = r.was_previously_connected || any_connected l

-- The list without the last result of a node that was connected before.
abbrev pub others : List PingResult → List PingResult
others [] = []
others (r ∷ l) =
    let rest = others l in
    if any_connected l then r ∷ rest else if r.was_previously_connected then l else r ∷ l

without_index-later : (i k : ℕ) (l : List PingResult) → k + 1 ≤ i → without_index i k l ≡ l
unfolding without_index
without_index-later i k [] h = refl
without_index-later i k (r ∷ l) h = ground (arith, without_index-later (i + 1) k l)

others-same : (l : List PingResult) → any_connected l ≡ false → others l ≡ l
others-same [] h = refl
others-same (r ∷ l) h = ground arith

previous_from-none :
    (i : ℕ) (found : Option ℕ) (l : List PingResult)
    → any_connected l ≡ false
    → previous_from i found l ≡ found
unfolding previous_from
previous_from-none i found [] h = refl
previous_from-none i found (r ∷ l) h = ground (arith, previous_from-none (i + 1) found l)

-- The index that the loop finds is that of the result that `others` leaves out.
previous_from-others :
    (i k : ℕ) (found : Option ℕ) (l : List PingResult)
    → any_connected l ≡ true
    → previous_from i found l ≡ some k
    → (i ≤ k) × (without_index i k l ≡ others l)
unfolding previous_from without_index
previous_from-others i k found [] c h = cc
previous_from-others i k found (r ∷ l) c h =
    let found' = if r.was_previously_connected then some i else found in
    elim (Bool-cases (any_connected l)) [
      | inl e ↦
          let (le, same) = previous_from-others (i + 1) k found' l e h in
          let differ : (i == k) ≡ false = ground (arith, nat_beq_iff i k, le) in
          (omega (arith, le), rw (e, differ) (ap (◌∷◌ r) same))
      | inr e ↦
          let was : r.was_previously_connected ≡ true = ground (arith, e, c) in
          let at : i ≡ k = ground (arith, was, previous_from-none (i + 1) found' l e, h) in
          let same : (i == k) ≡ true = (nat_beq_iff i k).1 at in
          (
            omega (arith, at),
            rw (e, was, same) (without_index-later (i + 1) k l (omega (arith, at))),
          )
    ]

-- Where a node was connected, the loop finds one.
previous_from-some :
    (i : ℕ) (found : Option ℕ) (l : List PingResult)
    → any_connected l ≡ true
    → is_some (previous_from i found l) ≡ true
unfolding previous_from
previous_from-some i found [] h = absurd (cc h)
previous_from-some i found (r ∷ l) h = elim (Bool-cases (any_connected l)) [
  | inl e ↦ previous_from-some (i + 1) (if r.was_previously_connected then some i else found) l e
  | inr e ↦
      let was : r.was_previously_connected ≡ true = ground (arith, e, h) in
      rw was (ground (arith, previous_from-none (i + 1) (some i) l e))
]

count_good-any_good :
    (i k : ℕ) (l : List PingResult) → (count_good i k l == 0) ≡ not (any_good (without_index i k l))
unfolding count_good without_index
count_good-any_good i k [] = refl
count_good-any_good i k (r ∷ l) = ground (arith, count_good-any_good (i + 1) k l)

exclude_previous-eq :
    (l : List PingResult) → exclude_previous l ≡ (if any_good (others l) then others l else l)
unfolding exclude_previous
exclude_previous-eq l = elim (Bool-cases (any_connected l)) [
  | inr e ↦ ground (arith, previous_from-none 0 none l e, others-same l e)
  | inl e ↦ elim (Option-cases (previous_from 0 none l)) [
    | inl x ↦ absurd (ground (arith, previous_from-some 0 none l e, x))
    | inr (k, x) ↦
        ground (arith, x, (previous_from-others 0 k none l e x).1, count_good-any_good 0 k l)
  ]
]

ping_exit_nodes-several :
    (get : Get) (n m : ExitNode) (l : List ExitNode) (connected : Bool)
    → ping_exit_nodes get (n ∷ m ∷ l) [] connected ≡ (
        if connected
        then exclude_previous (ping_each get (n ∷ m ∷ l))
        else ping_each get (n ∷ m ∷ l))
unfolding ping_exit_nodes
ping_exit_nodes-several get n m l connected =
    let more : (length (n ∷ m ∷ l) == 1) ≡ false = ground arith in rw more refl

-- Of several nodes and no preferred endpoint, the results of all are returned, in their order, except
-- that for a client that is connected the result of the last node that was connected before is left
-- out if another node answered without an error, in at least a millisecond.
pub ping_exit_nodes-eq :
    (get : Get) (n m : ExitNode) (l : List ExitNode) (connected : Bool)
    → let all = ping_each get (n ∷ m ∷ l) in
      ping_exit_nodes get (n ∷ m ∷ l) [] connected
      ≡ (if connected && any_good (others all) then others all else all)
ping_exit_nodes-eq get n m l false = ping_exit_nodes-several get n m l false
ping_exit_nodes-eq get n m l true =
    ping_exit_nodes-several get n m l true ∙ exclude_previous-eq (ping_each get (n ∷ m ∷ l))

-- No node has the endpoint.
abbrev pub IsUnknown : Text → List ExitNode → Type 0
IsUnknown prefer [] = Unit
IsUnknown prefer (n ∷ l) = (n.endpoint ≢ prefer) × IsUnknown prefer l

select_node-unknown :
    (prefer : Text) (n : ExitNode) (l : List ExitNode)
    → IsUnknown prefer l
    → select_node prefer n l ≡ n
unfolding select_node
select_node-unknown prefer n [] h = refl
select_node-unknown prefer n (m ∷ l) h =
    ground (arith, select_node-unknown prefer n l h.1, text_beq_iff m.endpoint prefer, h.0)

-- Where the preferred endpoint is none of the nodes', no node is pinged, and the first one is
-- returned.
pub ping_exit_nodes-unknown :
    (get : Get) (n : ExitNode) (l : List ExitNode) (prefer : Text) (connected : Bool)
    → prefer ≢ []
    → IsUnknown prefer (n ∷ l)
    → ping_exit_nodes get (n ∷ l) prefer connected ≡ unpinged n ∷ []
unfolding ping_exit_nodes
ping_exit_nodes-unknown get n l prefer connected h u =
    ground (arith, text_beq_iff prefer [], select_node-unknown prefer n (n ∷ l) u)
