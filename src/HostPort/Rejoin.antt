-- ===== src/HostPort/Rejoin.antt =====
-- A host and port that were split off a text join to a text that splits into them again.
use newt.Prelude.{
  ℕ, ◌≡◌, refl, false, none, some, [], ◌∷◌, ◌++◌, arith, ◌==◌, nat_eq, nat_beq_iff, Bool-cases,
  Option-cases, inl, inr,
}
use newt.Prelude.GoMap.{elem}
use newt.HostPort.{
  Text, split_first, split_last, plain_host, bracketed, bracketed_port, split_host_port,
  join_host_port,
}

-- What both forms of a text with host and port guarantee.
pub record IsParts (host port : Text) : Type 0 where
  pub open_host : elem b'[' host ≡ false
  pub close_host : elem b']' host ≡ false
  pub colon_port : elem b':' port ≡ false
  pub open_port : elem b'[' port ≡ false
  pub close_port : elem b']' port ≡ false

split_last-none : (c : ℕ) (s : Text) → split_last c s ≡ none → elem c s ≡ false
split_last-none c [] h = refl
split_last-none c (x ∷ s) h = ground (arith, split_last-none c s)

split_last-after : (c : ℕ) (s a b : Text) → split_last c s ≡ some (a, b) → elem c b ≡ false
split_last-after c [] a b h = cc
split_last-after c (x ∷ s) a b h = elim (Option-cases (split_last c s)) [
  | inl e ↦ ground (arith, split_last-none c s e)
  | inr ((a', b'), e) ↦ ground (arith, split_last-after c s a' b' e)
]

split_first-before : (c : ℕ) (s a b : Text) → split_first c s ≡ some (a, b) → elem c a ≡ false
split_first-before c [] a b h = cc
split_first-before c (x ∷ s) a b h = elim (Option-cases (split_first c s)) [
  | inl e ↦ ground arith
  | inr ((a', b'), e) ↦ ground (arith, split_first-before c s a' b' e)
]

split_last-absent : (c : ℕ) (s : Text) → elem c s ≡ false → split_last c s ≡ none
split_last-absent c [] h = refl
split_last-absent c (x ∷ s) h = ground (arith, split_last-absent c s)

split_last-append :
    (c : ℕ) (a b : Text) → elem c b ≡ false → split_last c (a ++ c ∷ b) ≡ some (a, b)
split_last-append c [] b h = ground (arith, split_last-absent c b h, nat_beq_iff c c)
split_last-append c (x ∷ a) b h = ground (arith, split_last-append c a b h)

pub split_first-append :
    (c : ℕ) (a b : Text) → elem c a ≡ false → split_first c (a ++ c ∷ b) ≡ some (a, b)
split_first-append c [] b h = ground (arith, nat_beq_iff c c)
split_first-append c (x ∷ a) b h = ground (arith, split_first-append c a b)

plain_host-IsParts :
    (s host port : Text) → plain_host (split_last b':' s) ≡ some (host, port) → IsParts host port
unfolding plain_host
plain_host-IsParts s host port h = elim (Option-cases (split_last b':' s)) [
  | inl e ↦ ground arith
  | inr ((a, b), e) ↦ ground (arith, split_last-after b':' s a b e)
]

bracketed_port-IsParts :
    (a after host port : Text)
    → elem b']' a ≡ false
    → bracketed_port a after ≡ some (host, port)
    → IsParts host port
unfolding bracketed_port
bracketed_port-IsParts a [] host port clear h = cc
bracketed_port-IsParts a (c ∷ after) host port clear h = ground arith

bracketed-IsParts :
    (s host port : Text) → bracketed (split_first b']' s) ≡ some (host, port) → IsParts host port
unfolding bracketed
bracketed-IsParts s host port h = elim (Option-cases (split_first b']' s)) [
  | inl e ↦ ground arith
  | inr ((a, b), e) ↦
      bracketed_port-IsParts a b host port (split_first-before b']' s a b e) (ground arith)
]

pub split_host_port-IsParts :
    (s host port : Text) → split_host_port s ≡ some (host, port) → IsParts host port
unfolding split_host_port
split_host_port-IsParts [] host port h = cc
split_host_port-IsParts (c ∷ s) host port h = elim (Bool-cases (c == b'[')) [
  | inl e ↦ bracketed-IsParts s host port (ground arith)
  | inr e ↦ plain_host-IsParts (c ∷ s) host port (ground arith)
]

split-plain :
    (host port : Text)
    → IsParts host port
    → elem b':' host ≡ false
    → split_host_port (host ++ b':' ∷ port) ≡ some (host, port)
unfolding split_host_port plain_host
split-plain [] port p h = ground (arith, split_last-append b':' [] port p.colon_port)
split-plain (c ∷ host) port p h =
    ground (arith, split_last-append b':' (c ∷ host) port p.colon_port)

split-bracketed :
    (host port : Text)
    → IsParts host port
    → split_host_port (b'[' ∷ (host ++ b']' ∷ b':' ∷ port)) ≡ some (host, port)
unfolding split_host_port bracketed bracketed_port
split-bracketed host port p =
    ground (arith, split_first-append b']' host (b':' ∷ port) p.close_host)

-- Parts that a text was split into join to a text that splits into them.
pub split-join_host_port :
    (host port : Text)
    → IsParts host port
    → split_host_port (join_host_port host port) ≡ some (host, port)
unfolding join_host_port
split-join_host_port host port p = elim (Bool-cases (elem b':' host)) [
  | inl e ↦ rw e (split-bracketed host port p)
  | inr e ↦ rw e (split-plain host port p e)
]
