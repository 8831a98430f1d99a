-- ===== src/TargetUpdates/Sync/Bracketed.antt =====
-- newt/data.go: a sync and the targets with an IPv6 host.
use newt.Prelude.{
  ℕ, suc, ◌+◌, ◌≤◌, ◌≡◌, refl, String, true, none, some, List, [], ◌∷◌, ◌++◌, ◌==◌, nat_eq,
  string_eq, int_eq, if◌then◌else◌, ℤ, pos, arith, ◌∙◌, ap, length, from_option, beq_refl,
}
use newt.Prelude.GoMap.{lookup, elem}
use newt.HostPort.{Text, join_host_port}
use newt.Numeral.{print_int, print_int-parts}
use newt.Proxy.{ProxyManager, Net}
use newt.TargetUpdates.{update_targets}
use newt.TargetUpdates.Reparse.{IsTarget, target_text}
use newt.TargetUpdates.Store.{Kind, kind_name, table, forwards, update_targets-adds}
use newt.TargetUpdates.Sync.{split_all, on_head, entry_of, desired_entry, desired_from, sync_kind}
use newt.TargetUpdates.Sync.Served.{AllTargets}
use newt.TargetUpdates.Sync.Exact.{sync_kind-forwards}

-- how often a byte stands in a text
count : ℕ → Text → ℕ
count c [] = 0
count c (x ∷ s) = (if x == c then 1 else 0) + count c s

count-append : (c : ℕ) (s t : Text) → count c (s ++ t) ≡ count c s + count c t
unfolding count
count-append c [] t = omega arith
count-append c (x ∷ s) t = omega (arith, count-append c s t)

count-elem : (c : ℕ) (s : Text) → elem c s ≡ true → 1 ≤ count c s
unfolding count
count-elem c [] h = cc
count-elem c (x ∷ s) h = ground (arith, count-elem c s)

length-on_head : (x : ℕ) (l : List Text) → 1 ≤ length l → length (on_head x l) ≡ length l
length-on_head x [] h = absurd (omega arith)
length-on_head x (a ∷ l) h = refl

length-split_all : (c : ℕ) (s : Text) → length (split_all c s) ≡ suc (count c s)
unfolding split_all count
length-split_all c [] = refl
length-split_all c (x ∷ s) = ground (arith, length-split_all c s, length-on_head x (split_all c s))

entry_of-none : (l : List Text) → 4 ≤ length l → entry_of l ≡ none
unfolding entry_of
entry_of-none [] h = refl
entry_of-none (a ∷ []) h = refl
entry_of-none (a ∷ b ∷ []) h = refl
entry_of-none (a ∷ b ∷ c ∷ []) h = absurd (omega arith)
entry_of-none (a ∷ b ∷ c ∷ d ∷ l) h = refl

count-bracketed :
    (host port : Text)
    → elem b':' host ≡ true
    → 3 ≤ count b':' (b':' ∷ b'[' ∷ (host ++ b']' ∷ b':' ∷ port))
unfolding count
count-bracketed host port h =
    omega (arith, count-append b':' host (b']' ∷ b':' ∷ port), count-elem b':' host h)

count-print_int : (n : ℕ) (tail : Text) → count b':' tail ≤ count b':' (print_int (pos n) tail)
count-print_int n tail =
    let shown = ap (count b':') (print_int-parts n b':' tail refl).0 in
    omega (arith, shown, count-append b':' (print_int (pos n) []) tail)

-- a target with a colon in its host is not of three parts
desired_entry-bracketed :
    (n : ℕ) (host port : Text)
    → elem b':' host ≡ true
    → desired_entry (target_text (pos n) (join_host_port host port)) ≡ none
unfolding desired_entry join_host_port
desired_entry-bracketed n host port h =
    let t = target_text (pos n) (b'[' ∷ (host ++ b']' ∷ b':' ∷ port)) in
    rw h (
      entry_of-none (split_all b':' t) (
        omega (
          arith,
          length-split_all b':' t,
          count-print_int n (b':' ∷ b'[' ∷ (host ++ b']' ∷ b':' ∷ port)),
          count-bracketed host port h,
        )))

desired_from-skipped : (t : Text) → desired_entry t ≡ none → desired_from [] (t ∷ []) ≡ []
unfolding desired_from
desired_from-skipped t h = ground arith

-- A target with an IPv6 host is forwarded once its text is added, but a sync whose only text for the
-- protocol is this very text takes it away.
pub sync_kind-bracketed :
    (net : Net) (ip : String) (kind : Kind) (port : ℤ) (target : Text) (pm : ProxyManager)
    → (t : IsTarget port target) → elem b':' t.host ≡ true
    → AllTargets (from_option [] (lookup ip (table kind pm)))
    → let text = target_text port target in
      (forwards kind ip port (update_targets none net "add" ip (kind_name kind) (text ∷ []) pm).1
        ≡ some target)
      × (forwards kind ip port (sync_kind none net ip kind (table kind pm) (text ∷ []) pm) ≡ none)
sync_kind-bracketed net ip kind port target pm t colon before =
    let add = update_targets-adds net kind ip port target pm t port in
    let text = target_text port target in
    let skipped : desired_entry text ≡ none =
      rw (t.is_number, t.joined) (desired_entry-bracketed t.number t.host t.target_port colon) in
    let none_desired : desired_from [] (text ∷ []) ≡ [] = desired_from-skipped text skipped in
    let sync =
      sync_kind-forwards net ip kind (text ∷ []) pm (table kind pm) port refl before
        (rw none_desired tt) in
    (add.0 ∙ rw (beq_refl port) refl, sync.0 ∙ rw none_desired refl)
