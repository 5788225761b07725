-- ===== src/Sessions/Unregister.antt =====
-- The registry under the calls of src/ida_multi_mcp/idalib_manager.py: reads keep what the file
-- holds, and a worker that is forgotten goes from the registry and from the processes.
use ida_multi_mcp.Prelude.{
  ◌≡◌, ap, ◌∙◌, inl, inr, Option, none, Text, text_eq, text_eq_iff, lookup, lookup-erase,
  if◌then◌else◌, Option-cases, arith,
}
use ida_multi_mcp.Registry.Schema.{Python, Info, Data}
use ida_multi_mcp.Registry.Disk.{Store}
use ida_multi_mcp.Registry.Changes.{remove_instance, unregister_in}
use ida_multi_mcp.Registry.Api.{unregister, get_instance}
use ida_multi_mcp.Registry.Coherence.{contents, IsCoherent, contents-AllValid}
use ida_multi_mcp.Registry.Valid.{unregister_in-AllValid}
use ida_multi_mcp.Registry.Refinement.{or_same, Refines, method-Refines, snapshot-Refines}

module _ (py : Python) where
  pub unregister-Refines :
      (s : Store) (id : Text)
      → IsCoherent py s
      → Refines py
          (unregister py s id).0
          (or_same py (contents py s) (unregister_in (contents py s) id))
  unfolding unregister
  unregister-Refines s id c =
      method-Refines py s (λ d. unregister_in d id) c
        λ d' e. unregister_in-AllValid py (contents py s) id e (contents-AllValid py s)

  lookup-unregister_in :
      (d : Data) (id a : Text)
      → lookup a (or_same py d (unregister_in d id)).instances
        ≡ (if text_eq id a then none else lookup a d.instances)
  unfolding unregister_in remove_instance
  lookup-unregister_in d id a = elim (Option-cases (lookup id d.instances)) [
    | inl e ↦ ground (arith, text_eq_iff id a)
    | inr (x, e) ↦ ground (arith, lookup-erase id a d.instances)
  ]

  -- What is registered under an id.
  abbrev pub entry : Text → Store → Option Info
  entry a s = lookup a (contents py s).instances

  pub entry-unregister :
      (s : Store) (id a : Text)
      → IsCoherent py s
      → entry a (unregister py s id).0 ≡ (if text_eq id a then none else entry a s)
  entry-unregister s id a c =
      ap (λ (d : Data). lookup a d.instances) (unregister-Refines s id c).0
      ∙ lookup-unregister_in (contents py s) id a

  pub get_instance-Refines :
      (s : Store) (id : Text)
      → IsCoherent py s
      → ((get_instance py s id).1 ≡ entry id s)
        × Refines py (get_instance py s id).0 (contents py s)
  unfolding get_instance
  get_instance-Refines s id c =
      let r = snapshot-Refines py s c in (ap (λ (d : Data). lookup id d.instances) r.0, r.1)

  pub entry-get_instance :
      (s : Store) (id a : Text) → IsCoherent py s → entry a (get_instance py s id).0 ≡ entry a s
  entry-get_instance s id a c =
      ap (λ (d : Data). lookup a d.instances) (get_instance-Refines s id c).1.0
