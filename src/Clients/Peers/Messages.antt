-- ===== src/Clients/Peers/Messages.antt =====
-- clients/clients.go: the messages that add, remove or update one peer.
use newt.Prelude.{
  ◌≡◌, String, Bool, true, false, Option, none, some, List, [], ◌∷◌, ◌++◌, nat_eq, length, refl,
  Bool-cases, ◌==◌, string_eq, if◌then◌else◌, arith, Option-cases, inl, inr,
}
use newt.Prelude.GoMap.{elem}
use newt.Clients.Peers.{
  Peer, IpcLine, is_plain, Device, FixKey, peer_lines, update_lines, allowed_ip_lines,
  endpoint_lines, persistent_keepalive_interval, UpdatePeerRequest, add_peer_to_device, remove_peer,
  update_peer,
}
use newt.Clients.Peers.Sync.{peer_lines-plain}

pub data PeerMessage : Type 0 where
  add : Peer → PeerMessage
  remove : String → PeerMessage
  update : UpdatePeerRequest → PeerMessage

ips_plain :
    (l : List String) (m : List IpcLine)
    → is_plain m ≡ true
    → is_plain (allowed_ip_lines l ++ m) ≡ true
unfolding allowed_ip_lines
ips_plain [] m h = h
ips_plain (ip ∷ l) m h = ips_plain l m h

endpoint_plain :
    (e : Option String)
    → is_plain (endpoint_lines e ++ persistent_keepalive_interval 25 ∷ []) ≡ true
unfolding endpoint_lines
endpoint_plain none = refl
endpoint_plain (some e) = refl

update_lines-plain : (r : UpdatePeerRequest) → is_plain (update_lines r) ≡ true
unfolding update_lines
update_lines-plain r = elim (Bool-cases (length r.allowed_ips == 0)) [
  | inl e ↦ rw (e, update_lines) (endpoint_plain r.endpoint)
  | inr e ↦
      rw (e, update_lines)
        (ips_plain r.allowed_ips
          (endpoint_lines r.endpoint ++ persistent_keepalive_interval 25 ∷ [])
          (endpoint_plain r.endpoint))
]

module _ (fix_key : FixKey) (dev : Device) where
  open dev use {own_key, peer_keys, peer_keys-set, peer_keys-remove, peer_keys-update}

  unfoldable handle_message : PeerMessage → dev.State → Bool × dev.State
  unfolding add_peer_to_device remove_peer update_peer
  handle_message (add p) s = add_peer_to_device fix_key dev p s
  handle_message (remove k) s = remove_peer fix_key dev k s
  handle_message (update r) s = update_peer fix_key dev r s

  -- The keys after a message that succeeded, those of the peers before it given.
  abbrev expected : String → PeerMessage → Bool → Bool
  expected j (add p) before = elim (fix_key p.public_key) [
    | none ↦ before
    | some k ↦ if k == j then true else before
  ]
  expected j (remove key) before = elim (fix_key key) [
    | none ↦ before
    | some k ↦ if k == j then false else before
  ]
  expected j (update r) before = before

  abbrev AvoidsOwn : PeerMessage → Type 0
  AvoidsOwn (add p) = (k : String) → fix_key p.public_key ≡ some k → (k == own_key) ≡ false
  AvoidsOwn (remove k) = Unit
  AvoidsOwn (update r) = Unit

  -- A message that succeeds and does not add the device's own key adds or removes the key that it
  -- names, and leaves the other keys of the device; an update leaves them all.
  elem-handle_message :
      (j : String) (msg : PeerMessage) (s : dev.State)
      → AvoidsOwn msg
      → (handle_message msg s).0 ≡ true
      → elem j (peer_keys (handle_message msg s).1) ≡ expected j msg (elem j (peer_keys s))
  unfolding handle_message add_peer_to_device remove_peer update_peer
  elem-handle_message j (add p) s other ok = elim (Option-cases (fix_key p.public_key)) [
    | inl e ↦ ground (arith, e)
    | inr (k, e) ↦ ground (
      arith,
      e,
      other k e,
      peer_keys-set k j (peer_lines p p.allowed_ips) s (peer_lines-plain p p.allowed_ips),
    )
  ]
  elem-handle_message j (remove key) s other ok = elim (Option-cases (fix_key key)) [
    | inl e ↦ ground (arith, e)
    | inr (k, e) ↦ ground (arith, e, peer_keys-remove k j s)
  ]
  elem-handle_message j (update r) s other ok = elim (Option-cases (fix_key r.public_key)) [
    | inl e ↦ ground (arith, e)
    | inr (k, e) ↦ ground (arith, e, peer_keys-update k j (update_lines r) s (update_lines-plain r))
  ]
