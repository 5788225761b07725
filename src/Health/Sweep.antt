-- ===== src/Health/Sweep.antt =====
-- `cleanup_stale_instances` of src/ida_multi_mcp/health.py removes the dead instances and no others.
use ida_multi_mcp.Prelude.{
  ℕ, ◌≡◌, refl, sym, ap, ◌∙◌, inl, inr, Bool, true, false, ◌||◌, [], ◌∷◌, Option, none, some, Text,
  text, text_eq, text_eq_iff, text_in, Dict, lookup, Distinct, if◌then◌else◌, Bool-cases,
  Option-cases, arith, lookup-erase,
}
use mathlib.Core.Path.{subst}
use ida_multi_mcp.Registry.Schema.{Python, Info, Data}
use ida_multi_mcp.Registry.Disk.{Store}
use ida_multi_mcp.Registry.Changes.{remove_instance, expire_instance_in, cleanup_expired_in}
use ida_multi_mcp.Registry.Api.{list_instances, expire_instance, cleanup_expired}
use ida_multi_mcp.Registry.Coherence.{contents, IsCoherent, contents-AllValid}
use ida_multi_mcp.Registry.Valid.{expire_instance_in-AllValid}
use ida_multi_mcp.Registry.Refinement.{
  or_same, Refines, method-Refines, sweep-Refines, snapshot-Refines,
}
use ida_multi_mcp.Health.{World, is_dead, sweep_dead, cleanup_stale_instances}

module _ (py : Python) (now : ℕ) where
  expire_instance-Refines :
      (s : Store) (id reason : Text)
      → IsCoherent py s
      → Refines py
          (expire_instance py s now id reason none).0
          (or_same py (contents py s) (expire_instance_in py now (contents py s) id reason none))
  unfolding expire_instance
  expire_instance-Refines s id reason c =
      method-Refines py s (λ d. expire_instance_in py now d id reason none) c
        λ d' e.
          expire_instance_in-AllValid py now (contents py s) id reason none e
            (contents-AllValid py s)

  lookup-expire :
      (d : Data) (id reason a : Text)
      → lookup a (or_same py d (expire_instance_in py now d id reason none)).instances
        ≡ (if text_eq id a then none else lookup a d.instances)
  unfolding expire_instance_in remove_instance
  lookup-expire d id reason a = elim (Option-cases (lookup id d.instances)) [
    | inl e ↦ ground (arith, text_eq_iff id a)
    | inr (x, e) ↦ ground (arith, lookup-erase id a d.instances)
  ]

if_or :
    (b c : Bool) (x : Option Info)
    → (if c then none else if b then none else x) ≡ (if b || c then none else x)
if_or true true x = refl
if_or true false x = refl
if_or false true x = refl
if_or false false x = refl

-- Whether an entry is that of a dead process; an absent entry is not.
abbrev pub dead : World → Option Info → Bool
dead w none = false
dead w (some info) = is_dead w info

module _ (py : Python) (w : World) (now : ℕ) where
  removed-dead :
      (a : Text) (more : Dict Info) (s : Store)
      → Distinct more
      → text_in a (sweep_dead py w now more s).1 ≡ dead w (lookup a more)
  unfolding sweep_dead text_in lookup
  removed-dead a [] s h = refl
  removed-dead a ((id, info) ∷ more) s h = elim (Bool-cases (is_dead w info)) [
    | inl d ↦
        let s' = (expire_instance py s now id (text "process_dead") none).0 in
        rw d (ground (arith, removed-dead a more s' h.1, text_eq_iff id a))
    | inr d ↦ rw d (ground (arith, removed-dead a more s h.1, text_eq_iff id a))
  ]

  left-Coherent :
      (more : Dict Info) (s : Store)
      → IsCoherent py s
      → IsCoherent py (sweep_dead py w now more s).0
        × ((a : Text)
            → lookup a (contents py (sweep_dead py w now more s).0).instances ≡ (
                if text_in a (sweep_dead py w now more s).1
                then none
                else lookup a (contents py s).instances))
  unfolding sweep_dead text_in
  left-Coherent [] s c = (c, λ a. refl)
  left-Coherent ((id, info) ∷ more) s c = elim (Bool-cases (is_dead w info)) [
    | inl d ↦
        let s' = (expire_instance py s now id (text "process_dead") none).0 in
        let r = expire_instance-Refines py now s id (text "process_dead") c in
        let ih = left-Coherent more s' r.1 in
        rw d (
          ih.0,
          λ a.
              let q =
                ap (λ (k : Data). lookup a k.instances) r.0
                ∙ lookup-expire py now (contents py s) id (text "process_dead") a in
              ih.1 a
              ∙ rw q (
                  if_or (text_eq id a) (text_in a (sweep_dead py w now more s').1)
                    (lookup a (contents py s).instances)),
        )
    | inr d ↦ rw d (left-Coherent more s c)
  ]

  after_expiry :
      (s : Store) (a : Text)
      → IsCoherent py s
      → lookup a (contents py (cleanup_expired py s now 3600).0).instances
        ≡ lookup a (contents py s).instances
  unfolding cleanup_expired cleanup_expired_in
  after_expiry s a c =
      ap (λ (d : Data). lookup a d.instances)
        (sweep-Refines py s (λ d. (cleanup_expired_in py now 3600 d).0) c
          (contents-AllValid py s)).0

  list_instances-Refines :
      (s : Store)
      → IsCoherent py s
      → ((list_instances py s).1 ≡ (contents py s).instances)
        × Refines py (list_instances py s).0 (contents py s)
  unfolding list_instances
  list_instances-Refines s c =
      let r = snapshot-Refines py s c in (ap (λ (d : Data). d.instances) r.0, r.1)

  -- The sweep reports exactly the registered instances whose process is dead, and afterwards these
  -- are no longer registered and every other instance is registered as before, whether it answers
  -- pings or not.
  pub cleanup_stale_instances_lem :
      (s : Store)
      → IsCoherent py s
      → Distinct (contents py s).instances
      → (a : Text)
      → let (s', removed) = cleanup_stale_instances py w now s in
        (text_in a removed ≡ dead w (lookup a (contents py s).instances))
        × (lookup a (contents py s').instances ≡ (
            if dead w (lookup a (contents py s).instances)
            then none
            else lookup a (contents py s).instances))
  unfolding cleanup_stale_instances
  cleanup_stale_instances_lem s c h a =
      let l = list_instances-Refines s c in
      let s0 = (list_instances py s).0 in
      let more = (list_instances py s).1 in
      let swept = left-Coherent more s0 l.1.1 in
      let went : text_in a (sweep_dead py w now more s0).1
          ≡ dead w (lookup a (contents py s).instances) =
        removed-dead a more s0 (subst Distinct (sym l.0) h)
        ∙ ap (λ (d : Dict Info). dead w (lookup a d)) l.0 in
      (
        went,
        after_expiry (sweep_dead py w now more s0).0 a swept.0
            ∙ swept.1 a
            ∙ rw went (
                ap
                  (λ (d : Data).
                    if dead w (lookup a (contents py s).instances)
                    then none
                    else lookup a d.instances)
                  l.1.0),
      )
