-- ===== src/Subnet/Listed.antt =====
-- A prefix table of github.com/gaissmai/bart as a list under masked keys, for concrete runs.
use newt.Prelude.{
  ℕ, ◌≡◌, refl, none, [], ◌∷◌, arith, ◌==◌, if◌then◌else◌, suc, ap, Bool-cases, inl, inr,
}
use newt.Prelude.GoMap.{GoMap, lookup, insert, delete, lookup-insert, lookup-delete}
use newt.Subnet.{Prefix, prefix_eq, prefix_beq_iff, masked, covers, collect, Bart}
use newt.Subnet.Table.Contents.{masked-masked}

-- A table as a list under masked keys.
abbrev pub ListTable : Type 0 → Type 0
ListTable V = GoMap Prefix V

-- The entries under masked keys: every entry that was inserted.
abbrev pub ListTable_size : (V : Type 0) → ListTable V → ℕ
ListTable_size V [] = 0
ListTable_size V ((k, v) ∷ t) =
    if masked k == k then suc (ListTable_size V t) else ListTable_size V t

pub ListTable-filled :
    (V : Type 0) (t : ListTable V)
    → ListTable_size V t ≡ 0
    → (p : Prefix) → lookup (masked p) t ≡ none
ListTable-filled V [] h p = refl
ListTable-filled V ((k, v) ∷ t) h p = ground (
  arith,
  ListTable-filled V t,
  ListTable-filled V t (ground arith) p,
  prefix_beq_iff (masked k) k,
  prefix_beq_iff k (masked p),
  masked-masked p,
)

pub ListTable-emptied :
    (V : Type 0) (t : ListTable V)
    → ((p : Prefix) → lookup (masked p) t ≡ none)
    → ListTable_size V t ≡ 0
ListTable-emptied V [] h = refl
ListTable-emptied V ((k, v) ∷ t) h = elim (Bool-cases (masked k == k)) [
  | inl e ↦ ground (arith, h k, prefix_beq_iff (masked k) k, prefix_beq_iff k (masked k))
  | inr e ↦ rw e (ListTable-emptied V t (λ p. ground (arith, h p, prefix_beq_iff k (masked p))))
]

abbrev pub list_bart : Bart
list_bart = record {
  Table = ListTable;
  empty = λ V. [];
  get = λ t p. lookup (masked p) t;
  insert = λ t p v. insert (masked p) v t;
  delete = λ t p. delete (masked p) t;
  size = λ {V} t. ListTable_size V t;
  supernets = λ t p. collect (λ q. lookup (masked q) t) (covers p);
  get-empty = λ V p. refl;
  get-insert = λ V t p q v. lookup-insert (masked p) (masked q) v t;
  get-delete = λ V t p q. lookup-delete (masked p) (masked q) t;
  get-masked = λ V t p. ap (λ q. lookup q t) (masked-masked p);
  size-eq-zero_iff = λ V t. (ListTable-filled V t, ListTable-emptied V t);
  supernets_lem = λ V t p. refl;
}
