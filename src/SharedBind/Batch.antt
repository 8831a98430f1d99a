-- ===== src/SharedBind/Batch.antt =====
-- bind/shared_bind.go: `receiveIPv4Batch`, which drops magic packets from a batch in place. The
-- buffers, sizes and endpoints are functions of their index; `ReadBatch` gives each message the address
-- of its sender.
pub mod Filtered
use newt.Prelude.{
  ℕ, zero, suc, ◌+◌, ◌≤◌, ◌<◌, ◌≡◌, ◌≢◌, refl, sym, ◌∙◌, ap, Bool, true, false, Option, none, some,
  List, [], ◌∷◌, ◌++◌, arith, length, take, drop, length-append, length-take, take_of_length-le,
  take_append, length-drop, ◌==◌, nat_eq, nat_beq_iff, is_some, if◌then◌else◌, inl, inr, Bool-cases,
  min,
}
use newt.HostPort.{Text}
use newt.SharedBind.{AddrPort, SharedBind, unmap}
use newt.SharedBind.Routing.{handle_magic_packet}

-- a received message: its length and the address of its sender
pub record Message : Type 0 where
  pub n : ℕ
  pub from : AddrPort

pub record Slots : Type 0 where
  pub bufs : ℕ → Text
  pub sizes : ℕ → ℕ
  pub eps : ℕ → Option AddrPort

abbrev pub set {ℓ} : {A : Type ℓ} → ℕ → A → (ℕ → A) → ℕ → A
set k v f j = if j == k then v else f j

-- `copy(dst, src)`
unfoldable pub copy_into : Text → Text → Text
copy_into dst src = take (length dst) src ++ drop (length src) dst

-- the message stays in the batch
unfoldable pub is_kept : SharedBind → ℕ → Message → Slots → Bool
is_kept b i m s =
    if m.n == 0
    then false
    else if is_some (handle_magic_packet (take m.n (s.bufs i)) m.from b)
    then false
    else true

-- message `i` goes to index `w`
unfoldable pub place : ℕ → ℕ → Message → Slots → Slots
unfolding copy_into
place w i m s = record s {
  bufs = if w == i then s.bufs else set w (copy_into (s.bufs w) (take m.n (s.bufs i))) s.bufs;
  sizes = set w m.n s.sizes;
  eps = set w (some (unmap m.from)) s.eps;
}

-- the loop over the messages
unfoldable pub compact : SharedBind → ℕ → ℕ → List Message → Slots → ℕ × Slots
unfolding is_kept place
compact b w i [] s = (w, s)
compact b w i (m ∷ ms) s = elim (is_kept b i m s) [
  | true ↦ compact b (suc w) (suc i) ms (place w i m s)
  | false ↦ compact b w (suc i) ms s
]

-- the first `k` packets, as the caller of the receive function reads them
abbrev pub read_out : ℕ → Slots → List (Text × Option AddrPort)
read_out zero s = []
read_out (suc k) s = read_out k s ++ (take (s.sizes k) (s.bufs k), s.eps k) ∷ []

-- the packets of the messages that stay, from message `i` on
abbrev pub kept : SharedBind → ℕ → List Message → Slots → List (Text × Option AddrPort)
kept b i [] s = []
kept b i (m ∷ ms) s =
    let rest = kept b (suc i) ms s in
    if is_kept b i m s then (take m.n (s.bufs i), some (unmap m.from)) ∷ rest else rest

-- every buffer has the given size, and no message is longer
abbrev pub Fits : ℕ → List Message → Slots → Type 0
Fits size [] s = (j : ℕ) → length (s.bufs j) ≡ size
Fits size (m ∷ ms) s = (m.n ≤ size) × Fits size ms s
