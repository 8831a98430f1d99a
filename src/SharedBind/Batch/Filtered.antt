-- ===== src/SharedBind/Batch/Filtered.antt =====
-- bind/shared_bind.go: what a batch read by `receiveIPv4Batch` returns.
use newt.Prelude.{
  ℕ, zero, suc, ◌≤◌, ◌<◌, ◌≡◌, ◌≢◌, refl, sym, ◌∙◌, ap, true, false, some, List, [], ◌∷◌, ◌++◌,
  append_assoc, append_nil, arith, length, take, drop, length-append, length-take,
  take_of_length-le, take_append, length-drop, ◌==◌, nat_eq, nat_beq_iff, is_some, if◌then◌else◌,
  inl, inr, Bool-cases,
}
use newt.HostPort.{Text}
use newt.SharedBind.{SharedBind, unmap}
use newt.SharedBind.Routing.{handle_magic_packet}
use newt.SharedBind.Batch.{
  Message, Slots, set, copy_into, is_kept, place, compact, read_out, kept, Fits,
}

set_other : {A : Type 0} (k j : ℕ) (v : A) (f : ℕ → A) → j ≢ k → set k v f j ≡ f j
set_other k j v f h = ground (arith, nat_beq_iff j k)

set_same : {A : Type 0} (k : ℕ) (v : A) (f : ℕ → A) → set k v f k ≡ v
set_same k v f = ground (arith, nat_beq_iff k k)

-- a placed message leaves the buffers at the other indices as they were
bufs-place : (w i j : ℕ) (m : Message) (s : Slots) → j ≢ w → (place w i m s).bufs j ≡ s.bufs j
unfolding place
bufs-place w i j m s h = elim (Bool-cases (w == i)) [
  | inl e ↦ rw (e, place) refl
  | inr e ↦ rw (e, place) (set_other w j (copy_into (s.bufs w) (take m.n (s.bufs i))) s.bufs h)
]

is_kept-place :
    (b : SharedBind) (w i j : ℕ) (m m' : Message) (s : Slots)
    → j ≢ w
    → is_kept b j m' (place w i m s) ≡ is_kept b j m' s
unfolding is_kept
is_kept-place b w i j m m' s h =
    ap
      (λ x.
        if m'.n == 0
        then false
        else if is_some (handle_magic_packet (take m'.n x) m'.from b)
        then false
        else true)
      (bufs-place w i j m s h)

kept-place :
    (b : SharedBind) (w i j : ℕ) (m : Message) (ms : List Message) (s : Slots)
    → w < j
    → kept b j ms (place w i m s) ≡ kept b j ms s
kept-place b w i j m [] s h = refl
kept-place b w i j m (m' ∷ ms) s h = cc (
  is_kept-place b w i j m m' s (λ x. omega (arith, x, h)),
  kept-place b w i (suc j) m ms s (omega (arith, h)),
  bufs-place w i j m s (λ x. omega (arith, x, h)),
)

sizes-place : (w i j : ℕ) (m : Message) (s : Slots) → j ≢ w → (place w i m s).sizes j ≡ s.sizes j
unfolding place
sizes-place w i j m s h = set_other w j m.n s.sizes h

eps-place : (w i j : ℕ) (m : Message) (s : Slots) → j ≢ w → (place w i m s).eps j ≡ s.eps j
unfolding place
eps-place w i j m s h = set_other w j (some (unmap m.from)) s.eps h

read_out-place :
    (k w i : ℕ) (m : Message) (s : Slots) → k ≤ w → read_out k (place w i m s) ≡ read_out k s
read_out-place zero w i m s h = refl
read_out-place (suc k) w i m s h =
    let ne : k ≢ w = λ x. omega (arith, x, h) in
    cc (
      read_out-place k w i m s (omega (arith, h)),
      bufs-place w i k m s ne,
      sizes-place w i k m s ne,
      eps-place w i k m s ne,
    )

length-copy_into :
    (dst src : Text) → length src ≤ length dst → length (copy_into dst src) ≡ length dst
unfolding copy_into
length-copy_into dst src h = omega (
  arith,
  length-append (take (length dst) src) (drop (length src) dst),
  length-take (length dst) src,
  length-drop (length src) dst,
)

take-copy_into :
    (dst src : Text) → length src ≤ length dst → take (length src) (copy_into dst src) ≡ src
unfolding copy_into
take-copy_into dst src h =
    ap (λ x. take (length src) (x ++ drop (length src) dst)) (take_of_length-le (length dst) src h)
    ∙ take_append (length src) src (drop (length src) dst) (omega arith)
    ∙ take_of_length-le (length src) src (omega arith)

Fits-length :
    (size : ℕ) (ms : List Message) (s : Slots) → Fits size ms s → (j : ℕ) → length (s.bufs j) ≡ size
Fits-length size [] s f = f
Fits-length size (m ∷ ms) s f = Fits-length size ms s f.1

length-bufs-place :
    (size w i : ℕ) (m : Message) (s : Slots)
    → m.n ≤ size
    → ((j : ℕ) → length (s.bufs j) ≡ size)
    → (j : ℕ) → length ((place w i m s).bufs j) ≡ size
unfolding place
length-bufs-place size w i m s short f j = elim (Bool-cases (w == i)) [
  | inl e ↦ rw (e, place) (f j)
  | inr e ↦
      let new = copy_into (s.bufs w) (take m.n (s.bufs i)) in
      rw (e, place)
        (elim (Bool-cases (j == w)) [
          | inl e' ↦ rw (e') (
              length-copy_into (s.bufs w) (take m.n (s.bufs i))
                (omega (arith, length-take m.n (s.bufs i), f w, f i, short))
              ∙ f w)
          | inr e' ↦ rw (e') (f j)
        ])
]

Fits-place :
    (size w i : ℕ) (m : Message) (ms : List Message) (s : Slots)
    → m.n ≤ size
    → Fits size ms s
    → Fits size ms (place w i m s)
Fits-place size w i m [] s short f = length-bufs-place size w i m s short f
Fits-place size w i m (m' ∷ ms) s short f = (f.0, Fits-place size w i m ms s short f.1)

-- the placed message itself
take-bufs-place :
    (size w i : ℕ) (m : Message) (s : Slots)
    → m.n ≤ size
    → ((j : ℕ) → length (s.bufs j) ≡ size)
    → take m.n ((place w i m s).bufs w) ≡ take m.n (s.bufs i)
unfolding place
take-bufs-place size w i m s short f =
    let payload = take m.n (s.bufs i) in
    let long : length payload ≡ m.n = omega (arith, length-take m.n (s.bufs i), f i, short) in
    elim (Bool-cases (w == i)) [
      | inl e ↦ rw (e, place) (ap (λ j. take m.n (s.bufs j)) ((nat_beq_iff w i).0 e))
      | inr e ↦
          rw (e, place)
            (ap (take m.n) (set_same w (copy_into (s.bufs w) payload) s.bufs)
              ∙ ap (λ k. take k (copy_into (s.bufs w) payload)) (sym long)
              ∙ take-copy_into (s.bufs w) payload (omega (arith, long, f w, short)))
    ]

read_out-place_next :
    (size w i : ℕ) (m : Message) (s : Slots)
    → m.n ≤ size
    → ((j : ℕ) → length (s.bufs j) ≡ size)
    → read_out (suc w) (place w i m s)
      ≡ read_out w s ++ (take m.n (s.bufs i), some (unmap m.from)) ∷ []
read_out-place_next size w i m s short f =
    let n_eq : (place w i m s).sizes w ≡ m.n = unfold place in set_same w m.n s.sizes in
    let e_eq : (place w i m s).eps w ≡ some (unmap m.from) =
      unfold place in set_same w (some (unmap m.from)) s.eps in
    cc (read_out-place w w i m s (omega arith), n_eq, e_eq, take-bufs-place size w i m s short f)

compact-read_out :
    (size : ℕ) (b : SharedBind) (w i : ℕ) (ms : List Message) (s : Slots)
    → Fits size ms s
    → w ≤ i
    → read_out (compact b w i ms s).0 (compact b w i ms s).1 ≡ read_out w s ++ kept b i ms s
unfolding compact
compact-read_out size b w i [] s f h = sym (append_nil (read_out w s))
compact-read_out size b w i (m ∷ ms) s f h =
    let rest = kept b (suc i) ms s in
    elim (Bool-cases (is_kept b i m s)) [
      | inl e ↦
          rw (e, compact)
            (compact-read_out size b (suc w) (suc i) ms (place w i m s)
                (Fits-place size w i m ms s f.0 f.1) (omega (arith, h))
              ∙ ap (λ x. x ++ kept b (suc i) ms (place w i m s))
                  (read_out-place_next size w i m s f.0 (Fits-length size ms s f.1))
              ∙ ap (λ x. (read_out w s ++ (take m.n (s.bufs i), some (unmap m.from)) ∷ []) ++ x)
                  (kept-place b w i (suc i) m ms s (omega (arith, h)))
              ∙ append_assoc (read_out w s) ((take m.n (s.bufs i), some (unmap m.from)) ∷ []) rest)
      | inr e ↦ rw (e, compact) (compact-read_out size b w (suc i) ms s f.1 (omega (arith, h)))
    ]

-- Where all buffers have one size and no message is longer, the packets that a batch read returns are
-- the messages that are neither empty nor magic packets, whole and in order, each with the unmapped
-- address of its sender.
pub compact-kept :
    (size : ℕ) (b : SharedBind) (ms : List Message) (s : Slots)
    → Fits size ms s
    → read_out (compact b 0 0 ms s).0 (compact b 0 0 ms s).1 ≡ kept b 0 ms s
compact-kept size b ms s f = compact-read_out size b 0 0 ms s f (omega arith)
