-- ===== src/Prelude/Lists.antt =====
-- Lists measured by native numbers, under the library's names.
use Prim.Native.Nat.{ℕ, zero, suc, ◌+◌, ◌-◌, ◌≤◌, min}
use mathlib.Core.Path.{◌≡◌, refl, ap}
use mathlib.Core.List.{List, [], ◌∷◌, ◌++◌}
use mathlib.Core.Bool.{Bool}
use native.Mathlib.Omega.{arith}
use newt.Prelude.Tests.{if◌then◌else◌}

module _ {ℓ} {A : Type ℓ} where
  abbrev pub length : List A → ℕ
  length [] = 0
  length (x ∷ xs) = suc (length xs)

  abbrev pub take : ℕ → List A → List A
  take zero l = []
  take (suc n) [] = []
  take (suc n) (a ∷ l) = a ∷ take n l

  abbrev pub drop : ℕ → List A → List A
  drop zero xs = xs
  drop (suc n) [] = []
  drop (suc n) (x ∷ xs) = drop n xs

  -- `for … { if keep(x) { out = append(out, x) } }`
  abbrev pub keep_if : (A → Bool) → List A → List A
  keep_if p [] = []
  keep_if p (x ∷ xs) = let rest = keep_if p xs in if p x then x ∷ rest else rest

  pub append_nil : (l : List A) → l ++ [] ≡ l
  append_nil [] = refl
  append_nil (a ∷ l) = ap (◌∷◌ a) (append_nil l)

  pub append_assoc : (l m r : List A) → (l ++ m) ++ r ≡ l ++ (m ++ r)
  append_assoc [] m r = refl
  append_assoc (a ∷ l) m r = ap (◌∷◌ a) (append_assoc l m r)

  pub length-append : (xs ys : List A) → length (xs ++ ys) ≡ length xs + length ys
  length-append [] ys = omega arith
  length-append (x ∷ xs) ys = omega (arith, length-append xs ys)

  pub length-take : (n : ℕ) (xs : List A) → length (take n xs) ≡ min n (length xs)
  length-take zero xs = omega arith
  length-take (suc n) [] = omega arith
  length-take (suc n) (x ∷ xs) = omega (arith, length-take n xs)

  pub take_of_length-le : (k : ℕ) (l : List A) → length l ≤ k → take k l ≡ l
  take_of_length-le zero [] h = refl
  take_of_length-le zero (a ∷ l) h = absurd (omega arith)
  take_of_length-le (suc k) [] h = refl
  take_of_length-le (suc k) (a ∷ l) h = ap (◌∷◌ a) (take_of_length-le k l (omega arith))

  pub take_append : (k : ℕ) (l r : List A) → k ≤ length l → take k (l ++ r) ≡ take k l
  take_append zero l r h = refl
  take_append (suc k) [] r h = absurd (omega arith)
  take_append (suc k) (a ∷ l) r h = ap (◌∷◌ a) (take_append k l r (omega arith))

  pub length-drop : (k : ℕ) (l : List A) → length (drop k l) ≡ length l - k
  length-drop zero l = omega arith
  length-drop (suc k) [] = omega arith
  length-drop (suc k) (a ∷ l) = omega (arith, length-drop k l)

  pub length-keep_if-le : (p : A → Bool) (xs : List A) → length (keep_if p xs) ≤ length xs
  length-keep_if-le p [] = omega arith
  length-keep_if-le p (x ∷ xs) = ground (arith, length-keep_if-le p xs)

-- Every element satisfies the predicate.
abbrev pub All {ℓ κ} : {A : Type ℓ} → (A → Type κ) → List A → Type κ
All P [] = Unit
All P (a ∷ l) = P a × All P l

pub All-append {ℓ κ} :
    {A : Type ℓ} (Q : A → Type κ) (l r : List A) → All Q l → All Q r → All Q (l ++ r)
All-append Q [] r hx hy = hy
All-append Q (a ∷ l) r hx hy = (hx.0, All-append Q l r hx.1 hy)

pub All-split {ℓ κ} :
    {A : Type ℓ} (Q : A → Type κ) (l r : List A) → All Q (l ++ r) → All Q l × All Q r
All-split Q [] r h = (tt, h)
All-split Q (a ∷ l) r h = let rest = All-split Q l r h.1 in ((h.0, rest.0), rest.1)
