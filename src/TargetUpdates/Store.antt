-- ===== src/TargetUpdates/Store.antt =====
-- newt/targets.go over proxy/manager.go: what one target text does to the targets of a protocol.
use newt.Prelude.{
  ◌≡◌, refl, String, Option, none, some, [], ◌∷◌, ◌==◌, string_eq, int_eq, if◌then◌else◌, ℤ, arith,
  ◌∙◌, beq_refl,
}
use newt.HostPort.{Text, text_eq}
use newt.Proxy.{Targets, ProxyManager, Net, add_target, remove_target}
use newt.Proxy.Targets.{target_of, is_same, add_target-target_of, remove_target-target_of}
use newt.TargetUpdates.{
  Script, execute_updown_script, processed_target, update_target, update_targets,
}
use newt.TargetUpdates.Reparse.{IsTarget, target_text, parse-target_text}

-- the two protocols of targets
pub data Kind : Type 0 where
  tcp udp : Kind

abbrev pub kind_name : Kind → String
kind_name tcp = "tcp"
kind_name udp = "udp"

abbrev pub table : Kind → ProxyManager → Targets
table tcp pm = pm.tcp_targets
table udp pm = pm.udp_targets

abbrev pub other : Kind → Kind
other tcp = udp
other udp = tcp

is_same-ip : (ip : String) (port k : ℤ) → is_same ip port ip k ≡ (port == k)
is_same-ip ip port k = rw (beq_refl ip) refl

-- the target of a port of the tunnel's address
abbrev pub forwards : Kind → String → ℤ → ProxyManager → Option Text
forwards kind ip port pm = target_of ip port (table kind pm)

pub add_target-forwards :
    (net : Net) (kind : Kind) (ip : String) (port : ℤ) (t : Text) (pm : ProxyManager) (k : ℤ)
    → forwards kind ip k (add_target net (kind_name kind) ip port t pm).1
      ≡ (if port == k then some t else forwards kind ip k pm)
add_target-forwards net tcp ip port t pm k =
    (add_target-target_of net ip port t pm ip k).0 ∙ rw (is_same-ip ip port k) refl
add_target-forwards net udp ip port t pm k =
    (add_target-target_of net ip port t pm ip k).1 ∙ rw (is_same-ip ip port k) refl

pub remove_target-forwards :
    (kind : Kind) (ip : String) (port : ℤ) (pm : ProxyManager) (k : ℤ)
    → forwards kind ip k (remove_target (kind_name kind) ip port pm).1
      ≡ (if port == k then none else forwards kind ip k pm)
remove_target-forwards tcp ip port pm k =
    (remove_target-target_of ip port pm ip k).0 ∙ rw (is_same-ip ip port k) refl
remove_target-forwards udp ip port pm k =
    (remove_target-target_of ip port pm ip k).1 ∙ rw (is_same-ip ip port k) refl

pub add_target-other :
    (net : Net) (kind : Kind) (ip : String) (port : ℤ) (t : Text) (pm : ProxyManager)
    → table (other kind) (add_target net (kind_name kind) ip port t pm).1 ≡ table (other kind) pm
add_target-other net tcp ip port t pm = (add_target-target_of net ip port t pm ip port).2
add_target-other net udp ip port t pm = (add_target-target_of net ip port t pm ip port).3

pub remove_target-other :
    (kind : Kind) (ip : String) (port : ℤ) (pm : ProxyManager)
    → table (other kind) (remove_target (kind_name kind) ip port pm).1 ≡ table (other kind) pm
unfolding remove_target
remove_target-other tcp ip port pm = ground arith
remove_target-other udp ip port pm = ground arith

-- without a script, a target is added as it is
processed_target-none : (proto : String) (t : Text) → processed_target none proto t ≡ t
unfolding processed_target execute_updown_script
processed_target-none proto t = ground arith

module _ (net : Net) (kind : Kind) (ip : String) (port : ℤ) (t : Text) (pm : ProxyManager)
    (ok : IsTarget port t) where
  pub update-remove :
      (script : Option Script)
      → (update_targets script net "remove" ip (kind_name kind) (target_text port t ∷ []) pm).1
        ≡ (remove_target (kind_name kind) ip port pm).1
  unfolding update_targets update_target
  update-remove script = ground (arith, parse-target_text port t ok)

  pub update-add :
      (update_targets none net "add" ip (kind_name kind) (target_text port t ∷ []) pm).1
      ≡ (add_target net (kind_name kind) ip port t (remove_target (kind_name kind) ip port pm).1).1
  unfolding update_targets update_target
  update-add = ground (arith, parse-target_text port t ok, processed_target-none (kind_name kind) t)

  -- A target's text removes it, and nothing else.
  pub update_targets-removes :
      (script : Option Script) (k : ℤ)
      → let pm' =
          (update_targets script net "remove" ip (kind_name kind) (target_text port t ∷ []) pm).1 in
        (forwards kind ip k pm' ≡ (if port == k then none else forwards kind ip k pm))
        × (table (other kind) pm' ≡ table (other kind) pm)
  update_targets-removes script k =
      rw (update-remove script)
        (remove_target-forwards kind ip port pm k, remove_target-other kind ip port pm)

  -- A target's text adds it, and nothing else.
  pub update_targets-adds :
      (k : ℤ)
      → let pm' =
          (update_targets none net "add" ip (kind_name kind) (target_text port t ∷ []) pm).1 in
        (forwards kind ip k pm' ≡ (if port == k then some t else forwards kind ip k pm))
        × (table (other kind) pm' ≡ table (other kind) pm)
  update_targets-adds k =
      let cleared = (remove_target (kind_name kind) ip port pm).1 in
      rw update-add (
        add_target-forwards net kind ip port t cleared k
            ∙ ground (arith, remove_target-forwards kind ip port pm k),
        add_target-other net kind ip port t cleared ∙ remove_target-other kind ip port pm,
      )
