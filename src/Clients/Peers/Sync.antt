-- ===== src/Clients/Peers/Sync.antt =====
-- clients/clients.go: what `syncPeers` leaves on the device.
use newt.Prelude.{
  ◌≡◌, refl, String, Bool, true, false, ◌&&◌, not, ◌||◌, none, some, List, [], ◌∷◌, ◌==◌, string_eq,
  if◌then◌else◌, arith, Option-cases, Bool-cases, inl, inr,
}
use newt.Prelude.GoMap.{GoMap, lookup, insert, elem, keys, elem-keys, elem-keys-insert}
use newt.Clients.Peers.{
  Peer, IpcLine, is_plain, Device, FixKey, peer_lines, current_peers, desired_peers,
  add_peer_to_device, remove_unwanted, add_absent, sync_peers,
}

-- The keys of the peers whose key parses.
abbrev pub valid_keys : FixKey → List Peer → List String
valid_keys fix_key [] = []
valid_keys fix_key (p ∷ l) =
    let rest = valid_keys fix_key l in
    elim (fix_key p.public_key) [ none ↦ rest | some k ↦ k ∷ rest ]

-- Each peer stands under its own key.
abbrev IsKeyed : FixKey → GoMap String Peer → Type 0
IsKeyed fix_key [] = Unit
IsKeyed fix_key ((k, p) ∷ m) = (fix_key p.public_key ≡ some k) × IsKeyed fix_key m

insert-IsKeyed :
    (fix_key : FixKey) (k : String) (p : Peer) (m : GoMap String Peer)
    → fix_key p.public_key ≡ some k
    → IsKeyed fix_key m
    → IsKeyed fix_key (insert k p m)
insert-IsKeyed fix_key k p [] e h = (e, tt)
insert-IsKeyed fix_key k p ((j, q) ∷ m) e h = elim (Bool-cases (j == k)) [
  | inl same ↦ rw same (e, h.1)
  | inr differ ↦ rw differ (h.0, insert-IsKeyed fix_key k p m e h.1)
]

desired_peers-IsKeyed :
    (fix_key : FixKey) (l : List Peer) (m : GoMap String Peer)
    → IsKeyed fix_key m
    → IsKeyed fix_key (desired_peers fix_key l m)
unfolding desired_peers
desired_peers-IsKeyed fix_key [] m h = h
desired_peers-IsKeyed fix_key (p ∷ l) m h = elim (Option-cases (fix_key p.public_key)) [
  | inl e ↦ rw (e, desired_peers) (desired_peers-IsKeyed fix_key l m h)
  | inr (k, e) ↦
      rw (e, desired_peers)
        (desired_peers-IsKeyed fix_key l (insert k p m) (insert-IsKeyed fix_key k p m e h))
]

elem-keys-desired_peers :
    (fix_key : FixKey) (j : String) (l : List Peer) (m : GoMap String Peer)
    → elem j (keys (desired_peers fix_key l m)) ≡ (elem j (valid_keys fix_key l) || elem j (keys m))
unfolding desired_peers
elem-keys-desired_peers fix_key j [] m = refl
elem-keys-desired_peers fix_key j (p ∷ l) m = elim (Option-cases (fix_key p.public_key)) [
  | inl e ↦ rw (e, desired_peers, valid_keys) (elem-keys-desired_peers fix_key j l m)
  | inr (k, e) ↦
      rw (e, desired_peers, valid_keys) ground
        (arith, elem-keys-desired_peers fix_key j l (insert k p m), elem-keys-insert k j p m)
]

elem-keys-current_peers :
    (j : String) (l : List String) (m : GoMap String Bool)
    → elem j (keys (current_peers l m)) ≡ (elem j l || elem j (keys m))
unfolding current_peers
elem-keys-current_peers j [] m = refl
elem-keys-current_peers j (k ∷ l) m =
    ground (arith, elem-keys-current_peers j l (insert k true m), elem-keys-insert k j true m)

pub peer_lines-plain : (p : Peer) (l : List String) → is_plain (peer_lines p l) ≡ true
unfolding peer_lines
peer_lines-plain p [] = ground arith
peer_lines-plain p (ip ∷ l) = peer_lines-plain p l

module _ (fix_key : FixKey) (dev : Device) where
  open dev use {own_key, peer_keys, peer_keys-set, peer_keys-remove}

  elem-remove_unwanted :
      (j : String) (desired : GoMap String Peer) (m : GoMap String Bool) (s : dev.State)
      → (remove_unwanted fix_key dev desired m s).0 ≡ true
      → elem j (peer_keys (remove_unwanted fix_key dev desired m s).1)
        ≡ (if elem j (keys m) && not (elem j (keys desired)) then false else elem j (peer_keys s))
  unfolding remove_unwanted
  elem-remove_unwanted j desired [] s ok = refl
  elem-remove_unwanted j desired ((k, b) ∷ m) s ok =
      let r = dev.ipc_set (IpcLine.public_key k ∷ IpcLine.remove ∷ []) s in
      elim (Option-cases (lookup k desired)) [
        | inl e ↦ ground (
          arith,
          e,
          elem-keys k desired,
          peer_keys-remove k j s,
          elem-remove_unwanted j desired m r.1,
          string_eq.beq_iff k j,
        )
        | inr (p, e) ↦ ground (
          arith,
          e,
          elem-keys k desired,
          elem-remove_unwanted j desired m s,
          string_eq.beq_iff k j,
        )
      ]

  elem-add_absent :
      (j : String) (current : GoMap String Bool) (m : GoMap String Peer) (s : dev.State)
      → IsKeyed fix_key m
      → elem own_key (keys m) ≡ false
      → (add_absent fix_key dev current m s).0 ≡ true
      → elem j (peer_keys (add_absent fix_key dev current m s).1)
        ≡ (elem j (keys m) && not (elem j (keys current)) || elem j (peer_keys s))
  unfolding add_absent add_peer_to_device
  elem-add_absent j current [] s keyed own ok = refl
  elem-add_absent j current ((k, p) ∷ m) s keyed own ok =
      let lines = peer_lines p p.allowed_ips in
      let r = dev.ipc_set (IpcLine.public_key k ∷ lines) s in
      elim (Option-cases (lookup k current)) [
        | inl e ↦ ground (
          arith,
          e,
          keyed.0,
          elem-keys k current,
          peer_keys-set k j lines s (peer_lines-plain p p.allowed_ips),
          elem-add_absent j current m r.1 keyed.1,
          string_eq.beq_iff k j,
        )
        | inr (b, e) ↦ ground (
          arith,
          e,
          elem-keys k current,
          elem-add_absent j current m s keyed.1,
          string_eq.beq_iff k j,
        )
      ]

  -- Where no desired peer has the device's own key and no call of the device fails, a sync leaves on
  -- the device exactly the keys of the desired peers whose key parses.
  pub elem-sync_peers :
      (j : String) (l : List Peer) (s : dev.State)
      → elem own_key (valid_keys fix_key l) ≡ false
      → (sync_peers fix_key dev l s).0 ≡ true
      → elem j (peer_keys (sync_peers fix_key dev l s).1) ≡ elem j (valid_keys fix_key l)
  unfolding sync_peers
  elem-sync_peers j l s own ok =
      let current = current_peers (peer_keys s) [] in
      let desired = desired_peers fix_key l [] in
      let removed = remove_unwanted fix_key dev desired current s in
      let own_desired : elem own_key (keys desired) ≡ false =
        ground (arith, own, elem-keys-desired_peers fix_key own_key l []) in
      ground (
        arith,
        elem-keys-desired_peers fix_key j l [],
        elem-keys-current_peers j (peer_keys s) [],
        elem-remove_unwanted j desired current s,
        elem-add_absent j current desired removed.1 (desired_peers-IsKeyed fix_key l [] tt)
            own_desired,
      )
