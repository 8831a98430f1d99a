-- ===== src/Numeral.antt =====
-- Decimal integers in texts, as newt/targets.go and newt/data.go write and read them: `%d` of
-- `fmt.Sprintf` and of `fmt.Sscanf`. Of the characters beyond ASCII none counts as a space.
use newt.Prelude.{
  ℕ, zero, suc, ◌+◌, ◌-◌, ◌*◌, ◌/◌, ◌%◌, ◌≤◌, ◌<◌, ◌≡◌, refl, Bool, true, false, ◌&&◌, ◌||◌, Option,
  none, some, [], ◌∷◌, arith, ◌==◌, nat_eq, if◌then◌else◌, ltb, leb, ℤ, pos, negsuc, max_int,
  Bool-cases, inl, inr, ◌∙◌, ap, sym, ltb→lt, ◌++◌,
}
use newt.Prelude.GoMap.{elem}
use newt.HostPort.{Text}

abbrev pub is_digit : ℕ → Bool
is_digit c = leb b'0' c && leb c b'9'

-- The digits of a number in front of a text; the fuel is above the number.
unfoldable pub digits : ℕ → ℕ → Text → Text
digits zero n tail = tail
digits (suc fuel) n tail =
    let more = digits fuel (n / 10) ((b'0' + n % 10) ∷ tail) in
    if ltb n 10 then (b'0' + n) ∷ tail else more

-- `fmt.Sprintf("%d…", n)`, with the text behind it
unfoldable pub print_int : ℤ → Text → Text
unfolding digits
print_int (pos n) tail = digits (suc n) n tail
print_int (negsuc n) tail = b'-' ∷ digits (suc (suc n)) (suc n) tail

abbrev is_space : ℕ → Bool
is_space c = c == 32 || c == 9 || c == 11 || c == 12 || c == 13

unfoldable skip_space : Text → Text
skip_space [] = []
skip_space (c ∷ s) = let rest = skip_space s in if is_space c then rest else c ∷ s

-- the number that the leading digits make
unfoldable pub read_digits : ℕ → Text → ℕ
read_digits acc [] = acc
read_digits acc (c ∷ s) =
    let more = read_digits (acc * 10 + (c - b'0')) s in if is_digit c then more else acc

abbrev positive : ℕ → Option ℤ
positive n = if leb n max_int then some (pos n) else none

abbrev negative : ℕ → Option ℤ
negative zero = some (pos 0)
negative (suc n) = if leb n max_int then some (negsuc n) else none

-- at least one digit
abbrev unsigned : (ℕ → Option ℤ) → Text → Option ℤ
unsigned value [] = none
unsigned value (c ∷ s) = if is_digit c then value (read_digits 0 (c ∷ s)) else none

abbrev signed : Text → Option ℤ
signed [] = none
signed (c ∷ s) =
    if c == b'-'
    then unsigned negative s
    else if c == b'+'
    then unsigned positive s
    else unsigned positive (c ∷ s)

-- `fmt.Sscanf(s, "%d", &n)`: spaces, a sign, digits; what follows is not read
unfoldable pub scan_int : Text → Option ℤ
unfolding skip_space read_digits
scan_int s = signed (skip_space s)

read_digits-cons :
    (acc m : ℕ) (tail : Text)
    → m < 10
    → read_digits acc ((b'0' + m) ∷ tail) ≡ read_digits (acc * 10 + m) tail
unfolding read_digits
read_digits-cons acc m tail h = ground arith

read_digits-digits :
    (fuel n : ℕ) (tail : Text) → n < fuel → read_digits 0 (digits fuel n tail) ≡ read_digits n tail
unfolding digits read_digits
read_digits-digits zero n tail h = absurd (omega arith)
read_digits-digits (suc fuel) n tail h = elim (Bool-cases (ltb n 10)) [
  | inl e ↦
      rw e (
        read_digits-cons 0 n tail (ltb→lt n 10 e)
        ∙ ap (λ (x : ℕ). read_digits x tail) (omega arith))
  | inr e ↦ rw e (
      read_digits-digits fuel (n / 10) ((b'0' + n % 10) ∷ tail) (ground arith)
      ∙ read_digits-cons (n / 10) (n % 10) tail (omega arith)
      ∙ ap (λ (x : ℕ). read_digits x tail) (omega arith))
]

digits-head :
    (fuel n : ℕ) (tail : Text)
    → n < fuel
    → (c : ℕ) × (rest : Text) × (digits fuel n tail ≡ c ∷ rest) × (is_digit c ≡ true)
unfolding digits
digits-head zero n tail h = absurd (omega arith)
digits-head (suc fuel) n tail h = elim (Bool-cases (ltb n 10)) [
  | inl e ↦ (b'0' + n, tail, rw e refl, ground arith)
  | inr e ↦
      let r = digits-head fuel (n / 10) ((b'0' + n % 10) ∷ tail) (ground arith) in
      (r.0, r.1, rw e r.2, r.3)
]

scan_int-digit :
    (c : ℕ) (s : Text) → is_digit c ≡ true → scan_int (c ∷ s) ≡ positive (read_digits 0 (c ∷ s))
unfolding scan_int skip_space
scan_int-digit c s h = ground arith

-- A printed number that fits an `int` reads back, whatever follows that does not go on with it.
pub scan_int-print_int :
    (n : ℕ) (tail : Text)
    → n ≤ max_int
    → read_digits n tail ≡ n
    → scan_int (print_int (pos n) tail) ≡ some (pos n)
unfolding print_int
scan_int-print_int n tail fits stop =
    let (d, rest, shown, digit) = digits-head (suc n) n tail (omega arith) in
    ap scan_int shown
    ∙ scan_int-digit d rest digit
    ∙ ap (λ (x : Text). positive (read_digits 0 x)) (sym shown)
    ∙ ap positive (read_digits-digits (suc n) n tail (omega arith) ∙ stop)
    ∙ ground arith

digits-append : (fuel n : ℕ) (a b : Text) → digits fuel n (a ++ b) ≡ digits fuel n a ++ b
unfolding digits
digits-append zero n a b = refl
digits-append (suc fuel) n a b = elim (Bool-cases (ltb n 10)) [
  | inl e ↦ rw e refl
  | inr e ↦ rw e (digits-append fuel (n / 10) ((b'0' + n % 10) ∷ a) b)
]

elem-digits :
    (c fuel n : ℕ) (tail : Text)
    → is_digit c ≡ false
    → elem c tail ≡ false
    → elem c (digits fuel n tail) ≡ false
unfolding digits
elem-digits c zero n tail h k = k
elem-digits c (suc fuel) n tail h k = elim (Bool-cases (ltb n 10)) [
  | inl e ↦ rw e (ground arith)
  | inr e ↦ rw e (elem-digits c fuel (n / 10) ((b'0' + n % 10) ∷ tail) h (ground arith))
]

-- A printed number has no byte but digits, and ends where the text behind it begins.
pub print_int-parts :
    (n c : ℕ) (tail : Text)
    → is_digit c ≡ false
    → (print_int (pos n) tail ≡ print_int (pos n) [] ++ tail)
      × (elem c (print_int (pos n) []) ≡ false)
unfolding print_int
print_int-parts n c tail h = (digits-append (suc n) n [] tail, elem-digits c (suc n) n [] h refl)
