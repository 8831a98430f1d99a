-- ===== src/Subnet.antt =====
-- netstack2/subnet_lookup.go, with `PortRange` and `SubnetRule` of netstack2/proxy.go: the data of
-- the rule table, and the interface to the prefix tables of github.com/gaissmai/bart.
-- An address is its number, 32 or 128 bits wide; a prefix has an address and a length.
pub mod Table
pub mod Listed
mod Tests
use newt.Prelude.{
  ℕ, zero, suc, ◌-◌, ◌*◌, ◌/◌, ◌^◌, ◌≡◌, ◌↔◌, String, Bool, true, false, ◌&&◌, Option, none, some,
  List, [], ◌∷◌, arith, ℤ, Eq, ◌==◌, nat_eq, bool_beq, nat_beq, nat_beq_iff, if◌then◌else◌,
}

pub record Addr : Type 0 where
  pub wide : Bool
  pub value : ℕ

pub record Prefix : Type 0 where
  pub wide : Bool
  pub value : ℕ
  pub bits : ℕ

-- `Addr.BitLen()`
abbrev pub bit_len : Bool → ℕ
bit_len wide = if wide then 128 else 32

-- `Prefix.Masked()`: the host bits are zero
unfoldable pub masked : Prefix → Prefix
masked p = record p {
  value = p.value / 2 ^ (bit_len p.wide - p.bits) * 2 ^ (bit_len p.wide - p.bits);
}

-- `netip.PrefixFrom(a, a.BitLen())`
abbrev pub host_prefix : Addr → Prefix
host_prefix a = record { wide = a.wide; value = a.value; bits = bit_len a.wide }

abbrev pub prefix_beq : Prefix → Prefix → Bool
prefix_beq p q = bool_beq p.wide q.wide && (nat_beq p.value q.value && nat_beq p.bits q.bits)

pub prefix_beq_iff : (p q : Prefix) → (prefix_beq p q ≡ true) ↔ (p ≡ q)
prefix_beq_iff p q = ground arith

instance abbrev pub prefix_eq : Eq Prefix
prefix_eq = record { beq = prefix_beq; beq_iff = prefix_beq_iff }

-- The prefixes that cover an address, the longest first.
abbrev pub covers_from : Bool → ℕ → ℕ → List Prefix
covers_from wide value zero = masked (record { wide = wide; value = value; bits = 0 }) ∷ []
covers_from wide value (suc n) =
    masked (record { wide = wide; value = value; bits = suc n }) ∷ covers_from wide value n

abbrev pub covers : Prefix → List Prefix
covers p = covers_from p.wide p.value p.bits

-- The values that are found under the keys of a list.
abbrev pub collect {ℓ} : {A B : Type ℓ} → (A → Option B) → List A → List B
collect f [] = []
collect f (a ∷ l) = let rest = collect f l in elim (f a) [ none ↦ rest | some b ↦ b ∷ rest ]

-- What the program relies on of `bart.Table`: it maps masked prefixes to values, `Size` counts
-- them, and `Supernets` yields the values of the covering prefixes from the longest to the shortest.
pub record Bart : Type 1 where
  pub Table : Type 0 → Type 0
  pub empty : (V : Type 0) → Table V
  pub get : {V : Type 0} → Table V → Prefix → Option V
  pub insert : {V : Type 0} → Table V → Prefix → V → Table V
  pub delete : {V : Type 0} → Table V → Prefix → Table V
  pub size : {V : Type 0} → Table V → ℕ
  pub supernets : {V : Type 0} → Table V → Prefix → List V
  pub get-empty : (V : Type 0) (p : Prefix) → get (empty V) p ≡ none
  pub get-insert :
      (V : Type 0) (t : Table V) (p q : Prefix) (v : V)
      → get (insert t p v) q ≡ (if masked p == masked q then some v else get t q)
  pub get-delete :
      (V : Type 0) (t : Table V) (p q : Prefix)
      → get (delete t p) q ≡ (if masked p == masked q then none else get t q)
  pub get-masked : (V : Type 0) (t : Table V) (p : Prefix) → get t (masked p) ≡ get t p
  pub size-eq-zero_iff : (V : Type 0) (t : Table V) → (size t ≡ 0) ↔ ((p : Prefix) → get t p ≡ none)
  pub supernets_lem :
      (V : Type 0) (t : Table V) (p : Prefix) → supernets t p ≡ collect (get t) (covers p)

pub record PortRange : Type 0 where
  pub min : ℕ
  pub max : ℕ
  pub protocol : String

-- The downstream services of an HTTP rule are carried along as texts.
pub record SubnetRule : Type 0 where
  pub source_prefix : Prefix
  pub dest_prefix : Prefix
  pub disable_icmp : Bool
  pub rewrite_to : String
  pub port_ranges : List PortRange
  pub resource_id : ℤ
  pub protocol : String
  pub http_targets : List String
  pub tls_cert : String
  pub tls_key : String
