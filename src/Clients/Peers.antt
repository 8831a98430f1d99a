-- ===== src/Clients/Peers.antt =====
-- clients/clients.go: the peers of the WireGuard device. A configuration for the device is the list
-- of its lines; parsing a key and writing it in the device's form is a function that is passed in.
pub mod Sync
mod Messages
use newt.Prelude.{
  ℕ, ◌≡◌, String, Bool, true, false, ◌&&◌, Option, none, some, List, [], ◌∷◌, ◌++◌, ◌==◌, nat_eq,
  string_eq, length, if◌then◌else◌,
}
use newt.Prelude.GoMap.{GoMap, lookup, insert, elem}

pub record Peer : Type 0 where
  pub public_key : String
  pub allowed_ips : List String
  pub endpoint : String

pub data IpcLine : Type 0 where
  public_key : String → IpcLine
  allowed_ip : String → IpcLine
  endpoint : String → IpcLine
  persistent_keepalive_interval : ℕ → IpcLine
  replace_allowed_ips : IpcLine
  update_only : IpcLine
  remove : IpcLine

-- a `handleUpdatePeer` message; it may leave out the endpoint
pub record UpdatePeerRequest : Type 0 where
  pub public_key : String
  pub allowed_ips : List String
  pub endpoint : Option String

-- No line begins another peer, removes one or keeps one from being added.
abbrev pub is_plain : List IpcLine → Bool
is_plain [] = true
is_plain (public_key k ∷ l) = false
is_plain (remove ∷ l) = false
is_plain (update_only ∷ l) = false
is_plain (_ ∷ l) = is_plain l

-- A device of golang.zx2c4.com/wireguard: `IpcSet` with whether it succeeded, and the keys of the
-- peers that `IpcGet` lists. A peer with the device's own key is accepted, but not kept.
pub record Device : Type 1 where
  pub State : Type 0
  pub own_key : String
  pub ipc_set : List IpcLine → State → Bool × State
  pub peer_keys : State → List String
  pub peer_keys-set :
      (k j : String) (l : List IpcLine) (s : State)
      → is_plain l ≡ true
      → (k == own_key) ≡ false
      → (ipc_set (public_key k ∷ l) s).0 ≡ true
      → elem j (peer_keys (ipc_set (public_key k ∷ l) s).1)
        ≡ (if k == j then true else elem j (peer_keys s))
  pub peer_keys-remove :
      (k j : String) (s : State)
      → (ipc_set (public_key k ∷ remove ∷ []) s).0 ≡ true
      → elem j (peer_keys (ipc_set (public_key k ∷ remove ∷ []) s).1)
        ≡ (if k == j then false else elem j (peer_keys s))
  pub peer_keys-update :
      (k j : String) (l : List IpcLine) (s : State)
      → is_plain l ≡ true
      → (ipc_set (public_key k ∷ update_only ∷ l) s).0 ≡ true
      → elem j (peer_keys (ipc_set (public_key k ∷ update_only ∷ l) s).1) ≡ elem j (peer_keys s)

-- `wgtypes.ParseKey` and then `util.FixKey`
abbrev pub FixKey : Type 0
FixKey = String → Option String

unfoldable pub peer_lines : Peer → List String → List IpcLine
peer_lines p [] =
    (if p.endpoint == "" then [] else IpcLine.endpoint p.endpoint ∷ [])
    ++ persistent_keepalive_interval 25 ∷ []
peer_lines p (ip ∷ l) = allowed_ip ip ∷ peer_lines p l

unfoldable pub endpoint_lines : Option String → List IpcLine
endpoint_lines none = []
endpoint_lines (some e) = IpcLine.endpoint (if e == "" then "0.0.0.0:0" else e) ∷ []

unfoldable pub allowed_ip_lines : List String → List IpcLine
allowed_ip_lines [] = []
allowed_ip_lines (ip ∷ l) = allowed_ip ip ∷ allowed_ip_lines l

unfoldable pub update_lines : UpdatePeerRequest → List IpcLine
unfolding endpoint_lines allowed_ip_lines
update_lines r =
    (if length r.allowed_ips == 0 then [] else replace_allowed_ips ∷ allowed_ip_lines r.allowed_ips)
    ++ (endpoint_lines r.endpoint ++ persistent_keepalive_interval 25 ∷ [])

-- the loop over the lines of `IpcGet`
unfoldable pub current_peers : List String → GoMap String Bool → GoMap String Bool
current_peers [] m = m
current_peers (k ∷ l) m = current_peers l (insert k true m)

-- the loop over the desired peers
unfoldable pub desired_peers : FixKey → List Peer → GoMap String Peer → GoMap String Peer
desired_peers fix_key [] m = m
desired_peers fix_key (p ∷ l) m = elim (fix_key p.public_key) [
  | none ↦ desired_peers fix_key l m
  | some k ↦ desired_peers fix_key l (insert k p m)
]

module _ (fix_key : FixKey) (dev : Device) where
  unfoldable pub add_peer_to_device : Peer → dev.State → Bool × dev.State
  unfolding peer_lines
  add_peer_to_device p s = elim (fix_key p.public_key) [
    | none ↦ (false, s)
    | some k ↦ dev.ipc_set (IpcLine.public_key k ∷ peer_lines p p.allowed_ips) s
  ]

  unfoldable pub remove_peer : String → dev.State → Bool × dev.State
  remove_peer key s = elim (fix_key key) [
    | none ↦ (false, s)
    | some k ↦ dev.ipc_set (IpcLine.public_key k ∷ remove ∷ []) s
  ]

  -- `handleUpdatePeer` after it has asked for a hole punch
  unfoldable pub update_peer : UpdatePeerRequest → dev.State → Bool × dev.State
  unfolding update_lines
  update_peer r s = elim (fix_key r.public_key) [
    | none ↦ (false, s)
    | some k ↦ dev.ipc_set (IpcLine.public_key k ∷ update_only ∷ update_lines r) s
  ]

  -- The loops go on after a failure; whether there was none is returned.
  unfoldable pub remove_unwanted :
      GoMap String Peer → GoMap String Bool → dev.State → Bool × dev.State
  remove_unwanted desired [] s = (true, s)
  remove_unwanted desired ((k, _) ∷ m) s = elim (lookup k desired) [
    | some p ↦ remove_unwanted desired m s
    | none ↦
        let r = dev.ipc_set (IpcLine.public_key k ∷ remove ∷ []) s in
        let rest = remove_unwanted desired m r.1 in (r.0 && rest.0, rest.1)
  ]

  unfoldable pub add_absent : GoMap String Bool → GoMap String Peer → dev.State → Bool × dev.State
  unfolding add_peer_to_device
  add_absent current [] s = (true, s)
  add_absent current ((k, p) ∷ m) s = elim (lookup k current) [
    | some b ↦ add_absent current m s
    | none ↦
        let r = add_peer_to_device p s in
        let rest = add_absent current m r.1 in (r.0 && rest.0, rest.1)
  ]

  -- where there is a device and `IpcGet` succeeds
  unfoldable pub sync_peers : List Peer → dev.State → Bool × dev.State
  unfolding current_peers desired_peers remove_unwanted add_absent
  sync_peers l s =
      let current = current_peers (dev.peer_keys s) [] in
      let desired = desired_peers fix_key l [] in
      let removed = remove_unwanted desired current s in
      let added = add_absent current desired removed.1 in (removed.0 && added.0, added.1)
