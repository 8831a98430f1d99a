-- ===== src/ExitNodes/Tests.antt =====
-- exitnode/exitnode.go: three nodes.
use newt.Prelude.{ℕ, ◌≡◌, refl, Bool, true, false, [], ◌∷◌, pos, nat_eq}
use newt.HostPort.{text}
use newt.ExitNodes.{
  ExitNode, Reply, Get, ping_url, has_prefix, has_suffix, trim_slashes, ping_each, ping_exit_nodes,
  ping_node, attempt_from, add_attempt,
}
use newt.ExitNodes.Choice.{ping_exit_nodes-eq}

url_test : ping_url (text "node.example/") ≡ text "http://node.example/ping"
unfolding ping_url has_prefix has_suffix trim_slashes
url_test = refl

abbrev node : ℕ → Bool → ExitNode
node n was = record {
  id = pos n;
  name = [];
  endpoint = n ∷ [];
  weight = 0;
  was_previously_connected = was;
}

-- every node answers in 20 ms
abbrev get : Get
get = λ url j. Reply.answered 20000000

ping_exit_nodes-eq_example :
    ping_exit_nodes get (node 97 true ∷ node 98 false ∷ node 99 false ∷ []) [] true
    ≡ ping_each get (node 98 false ∷ node 99 false ∷ [])
unfolding ping_node ping_url has_prefix has_suffix trim_slashes attempt_from add_attempt
ping_exit_nodes-eq_example =
    ping_exit_nodes-eq get (node 97 true) (node 98 false) (node 99 false ∷ []) true
