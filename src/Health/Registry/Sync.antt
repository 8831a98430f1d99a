-- ===== src/Health/Registry/Sync.antt =====
-- healthcheck/healthcheck.go: `SyncTargets` makes the targets those that are desired.
use newt.Prelude.{
  ◌≡◌, refl, false, Option, none, some, List, [], ◌∷◌, arith, ℤ, pos, ◌==◌, nat_eq, int_eq,
  int_beq_iff, if◌then◌else◌, is_some,
}
use newt.Prelude.GoMap.{
  GoMap, lookup, insert, keys, elem, Distinct, lookup-insert, lookup-delete, insert-Distinct,
  elem-keys,
}
use newt.Health.{Health, unknown, Config, Target}
use newt.Health.Registry.{
  Monitor, with_defaults, add_target, drop_if_there, drop_each, desired_map, to_remove, sync_one,
  sync_each, sync_targets, new_target,
}

-- What is observable of a target: configuration, status and counters.
abbrev pub View : Type 0
View = Config × Health × ℤ × ℤ × ℤ

abbrev pub view : Option Target → Option View
view none = none
view (some t) =
    some (t.config, t.status, t.check_count, t.consecutive_successes, t.consecutive_failures)

-- A desired target as it stands after the synchronisation: defaults applied, nothing checked.
abbrev pub fresh_view : Option Config → Option View
fresh_view none = none
fresh_view (some c) = some (with_defaults c, unknown, pos 0, pos 0, pos 0)

-- The last configuration that a list gives for an id.
abbrev pub last_for : ℤ → List Config → Option Config
last_for id [] = none
last_for id (c ∷ cs) =
    let later = last_for id cs in
    if is_some later then later else if c.id == id then some c else none

-- Every configuration stands under its own id.
abbrev IsKeyed : GoMap ℤ Config → Type 0
IsKeyed [] = Unit
IsKeyed ((id, c) ∷ d) = (c.id ≡ id) × IsKeyed d

insert-IsKeyed : (c : Config) (d : GoMap ℤ Config) → IsKeyed d → IsKeyed (insert c.id c d)
insert-IsKeyed c [] h = (refl, tt)
insert-IsKeyed c ((j, x) ∷ d) h = ground (arith, insert-IsKeyed c d)

desired_map-IsKeyed :
    (cs : List Config) (d : GoMap ℤ Config) → IsKeyed d → IsKeyed (desired_map cs d)
unfolding desired_map
desired_map-IsKeyed [] d h = h
desired_map-IsKeyed (c ∷ cs) d h = desired_map-IsKeyed cs (insert c.id c d) (insert-IsKeyed c d h)

desired_map-Distinct :
    (cs : List Config) (d : GoMap ℤ Config) → Distinct d → Distinct (desired_map cs d)
unfolding desired_map
desired_map-Distinct [] d h = h
desired_map-Distinct (c ∷ cs) d h =
    desired_map-Distinct cs (insert c.id c d) (insert-Distinct c.id c d h)

lookup-desired_map :
    (cs : List Config) (d : GoMap ℤ Config) (j : ℤ)
    → lookup j (desired_map cs d) ≡ (if is_some (last_for j cs) then last_for j cs else lookup j d)
unfolding desired_map
lookup-desired_map [] d j = refl
lookup-desired_map (c ∷ cs) d j =
    ground (arith, lookup-desired_map cs (insert c.id c d) j, lookup-insert c.id j c d)

view-add_target :
    (c : Config) (m : Monitor) (j : ℤ)
    → view (lookup j (add_target c m).targets)
      ≡ (if c.id == j then fresh_view (some c) else view (lookup j m.targets))
unfolding add_target
view-add_target c m j =
    ground (
      arith,
      lookup-insert c.id j (new_target m.enforce_cert m.next_ctx (with_defaults c)) m.targets,
    )

lookup-drop_if_there :
    (id : ℤ) (m : Monitor) (j : ℤ)
    → lookup j (drop_if_there id m).targets ≡ (if id == j then none else lookup j m.targets)
unfolding drop_if_there
lookup-drop_if_there id m j = ground (arith, lookup-delete id j m.targets, int_beq_iff id j)

view-sync_one :
    (id : ℤ) (c : Config) (m : Monitor) (j : ℤ)
    → c.id ≡ id
    → view (lookup j (sync_one id c m).targets)
      ≡ (if id == j then fresh_view (some c) else view (lookup j m.targets))
unfolding sync_one
view-sync_one id c m j e =
    ground (arith, view-add_target c (drop_if_there id m) j, lookup-drop_if_there id m j)

view-sync_each :
    (d : GoMap ℤ Config) (m : Monitor) (j : ℤ)
    → IsKeyed d
    → Distinct d
    → view (lookup j (sync_each d m).targets)
      ≡ (if is_some (lookup j d) then fresh_view (lookup j d) else view (lookup j m.targets))
unfolding sync_each
view-sync_each [] m j k u = refl
view-sync_each ((id, c) ∷ d) m j k u = ground (
  arith,
  view-sync_each d (sync_one id c m) j k.1 u.1,
  view-sync_one id c m j k.0,
  elem-keys id d,
  int_beq_iff id j,
)

lookup-drop_each :
    (ids : List ℤ) (m : Monitor) (j : ℤ)
    → lookup j (drop_each ids m).targets ≡ (if elem j ids then none else lookup j m.targets)
unfolding drop_each
lookup-drop_each [] m j = refl
lookup-drop_each (id ∷ ids) m j =
    ground (arith, lookup-drop_each ids (drop_if_there id m) j, lookup-drop_if_there id m j)

elem-to_remove :
    (d : GoMap ℤ Config) (ids : List ℤ) (j : ℤ)
    → elem j (to_remove d ids) ≡ (if is_some (lookup j d) then false else elem j ids)
unfolding to_remove
elem-to_remove d [] j = ground arith
elem-to_remove d (id ∷ ids) j = ground (arith, elem-to_remove d ids j, int_beq_iff id j)

-- Whatever the targets were before, after the synchronisation there is a target under an id
-- exactly when a configuration with that id is desired: the last one given, with the defaults,
-- not checked yet.
pub sync_targets_lem :
    (cs : List Config) (m : Monitor) (j : ℤ)
    → view (lookup j (sync_targets cs m).targets) ≡ fresh_view (last_for j cs)
unfolding sync_targets
sync_targets_lem cs m j =
    let desired = desired_map cs [] in
    let removed = to_remove desired (keys m.targets) in
    let m' = sync_each desired (drop_each removed m) in
    ground (
      arith,
      view-sync_each desired (drop_each removed m) j (desired_map-IsKeyed cs [] tt)
          (desired_map-Distinct cs [] tt),
      lookup-desired_map cs [] j,
      lookup-drop_each removed m j,
      elem-to_remove desired (keys m.targets) j,
      elem-keys j m.targets,
    )
