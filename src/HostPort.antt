-- ===== src/HostPort.antt =====
-- Texts of the form host:port, as byte lists: `net.SplitHostPort` and `net.JoinHostPort` of Go's
-- standard library as netstack2/access_log.go and newt/targets.go use them.
pub mod Rejoin
use Prim.Native.Char.{code}
use newt.Prelude.{
  ℕ, ◌≡◌, refl, ◌↔◌, String, Bool, true, false, ◌&&◌, ◌||◌, Option, none, some, List, [], ◌∷◌, ◌++◌,
  arith, ◌==◌, Eq, nat_eq, nat_beq, if◌then◌else◌,
}
use newt.Prelude.GoMap.{elem}

abbrev pub Text : Type 0
Text = List ℕ

abbrev pub text : String → Text
text String.[] = []
text (String.◌∷◌ c s) = code c ∷ text s

abbrev pub text_beq : Text → Text → Bool
text_beq [] [] = true
text_beq (a ∷ s) (b ∷ t) = let rest = text_beq s t in nat_beq a b && rest
text_beq _ _ = false

pub text_beq_iff : (s t : Text) → (text_beq s t ≡ true) ↔ (s ≡ t)
text_beq_iff [] [] = (λ h. refl, λ h. refl)
text_beq_iff [] (b ∷ t) = (λ h. cc, λ h. cc)
text_beq_iff (a ∷ s) [] = (λ h. cc, λ h. cc)
text_beq_iff (a ∷ s) (b ∷ t) =
    (λ h. ground (arith, text_beq_iff s t), λ h. ground (arith, text_beq_iff s t))

instance abbrev pub text_eq : Eq Text
text_eq = record { beq = text_beq; beq_iff = text_beq_iff }

-- The text before and after the first occurrence of a byte.
abbrev pub split_first : ℕ → Text → Option (Text × Text)
split_first c [] = none
split_first c (x ∷ s) =
    let rest = split_first c s in
    if x == c then some ([], s) else elim rest [ none ↦ none | some (a, b) ↦ some (x ∷ a, b) ]

-- The text before and after the last occurrence of a byte.
abbrev pub split_last : ℕ → Text → Option (Text × Text)
split_last c [] = none
split_last c (x ∷ s) = elim (split_last c s) [
  | some (a, b) ↦ some (x ∷ a, b)
  | none ↦ if x == c then some ([], s) else none
]

-- without brackets: the host has no colon, and no bracket stands anywhere
plain_host : Option (Text × Text) → Option (Text × Text)
plain_host none = none
plain_host (some (host, port)) =
    if elem b':' host || elem b'[' host || elem b']' host || elem b'[' port || elem b']' port
    then none
    else some (host, port)

-- behind the closing bracket stands the last colon, and no bracket follows
bracketed_port : Text → Text → Option (Text × Text)
bracketed_port host [] = none
bracketed_port host (c ∷ port) =
    if c == b':'
    then (if elem b':' port || elem b'[' host || elem b'[' port || elem b']' port
        then none
        else some (host, port))
    else none

bracketed : Option (Text × Text) → Option (Text × Text)
bracketed none = none
bracketed (some (host, after)) = bracketed_port host after

-- `none` is any of the errors
unfoldable pub split_host_port : Text → Option (Text × Text)
unfolding plain_host bracketed bracketed_port
split_host_port [] = none
split_host_port (c ∷ s) =
    if c == b'[' then bracketed (split_first b']' s) else plain_host (split_last b':' (c ∷ s))

unfoldable pub join_host_port : Text → Text → Text
join_host_port host port =
    if elem b':' host then b'[' ∷ (host ++ (b']' ∷ b':' ∷ port)) else host ++ (b':' ∷ port)
