-- ===== src/Registry/Refinement.antt =====
-- The methods of src/ida_multi_mcp/registry.py on the shared file implement an abstract registry,
-- also where other processes write the file between the calls.
use ida_multi_mcp.Prelude.{
  ℕ, ◌≤◌, ◌≡◌, refl, sym, inl, inr, List, [], ◌∷◌, Option, none, some, Text, Option-cases,
}
use ida_multi_mcp.Registry.Schema.{Python, Data}
use ida_multi_mcp.Registry.Disk.{
  File, Store, file_signature, cache_get, load, save, snapshot, write_elsewhere,
}
use ida_multi_mcp.Registry.Changes.{
  Metadata, Result, ok, raise, register_in, unregister_in, update_heartbeat_in, set_active_in,
  expire_instance_in, cleanup_expired_in, cleanup_stale_in,
}
use mathlib.Core.Path.{subst}
use ida_multi_mcp.Registry.Api.{
  commit, registered, register, unregister, update_heartbeat, set_active, expire_instance,
  cleanup_expired, cleanup_stale, list_instances,
}
use ida_multi_mcp.Registry.Coherence.{
  file_data, contents, IsCoherent, AllValid, hit, contents-AllValid, save-contents, load-contents,
  write_elsewhere-IsCoherent,
}
use ida_multi_mcp.Registry.Valid.{
  HostsArePlain, register_in-AllValid, unregister_in-AllValid, update_heartbeat_in-AllValid,
  set_active_in-AllValid, expire_instance_in-AllValid, AllValid-expire_stale,
}

-- What happens to the registry: the method calls of one process, and the writes of the others.
pub data Event : Type 0 where
  registers : ℕ → ℕ → ℕ → Text → Metadata → Event
  unregisters : Text → Event
  beats : ℕ → Text → Event
  activates : Text → Event
  expires : ℕ → Text → Text → Option Text → Event
  sweeps_expired : ℕ → ℕ → Event
  sweeps_stale : ℕ → ℕ → Event
  reads : Event
  elsewhere : File → Event

module _ (py : Python) where
  -- The store after an event.
  unfoldable pub step : Store → Event → Store
  step s (registers now pid port path meta) = (register py s now pid port path meta).0
  step s (unregisters id) = (unregister py s id).0
  step s (beats now id) = (update_heartbeat py s now id).0
  step s (activates id) = (set_active py s id).0
  step s (expires now id reason by) = (expire_instance py s now id reason by).0
  step s (sweeps_expired now age) = (cleanup_expired py s now age).0
  step s (sweeps_stale now timeout) = (cleanup_stale py s now timeout).0
  step s reads = (list_instances py s).0
  step s (elsewhere f) = write_elsewhere s f

  abbrev pub or_same : Data → Option Data → Data
  or_same d none = d
  or_same d (some d') = d'

  abbrev pub data_of : Data → Result (Data × Text) → Data
  data_of d (raise e) = d
  data_of d (ok (d', id)) = d'

  -- The abstract registry: no file and no cache, only the data.
  unfoldable pub change : Data → Event → Data
  change d (registers now pid port path meta) = data_of d (register_in py now d pid port path meta)
  change d (unregisters id) = or_same d (unregister_in d id)
  change d (beats now id) = or_same d (update_heartbeat_in py now d id)
  change d (activates id) = or_same d (set_active_in d id)
  change d (expires now id reason by) = or_same d (expire_instance_in py now d id reason by)
  change d (sweeps_expired now age) = (cleanup_expired_in py now age d).0
  change d (sweeps_stale now timeout) = (cleanup_stale_in py now timeout d).0
  change d reads = d
  change d (elsewhere f) = file_data py f

-- A registration with a port from 1 to 65535; every other event.
abbrev pub HasPort : Event → Type 0
HasPort (registers now pid port path meta) = (1 ≤ port) × (port ≤ 65535)
HasPort _ = Unit {0}

module _ (py : Python) where
  abbrev pub Refines : Store → Data → Type 0
  Refines s d = (contents py s ≡ d) × IsCoherent py s

  commit-Refines :
      (s : Store) (d : Data) (o : Option Data)
      → Refines s d
      → ((d' : Data) → o ≡ some d' → AllValid py d'.instances)
      → Refines (commit py s o).0 (or_same py d o)
  commit-Refines s d none r v = r
  commit-Refines s d (some d') r v = save-contents py s d' (v d' refl)

  registered-Refines :
      (s : Store) (d : Data) (o : Result (Data × Text))
      → Refines s d
      → ((d' : Data) (id : Text) → o ≡ ok (d', id) → AllValid py d'.instances)
      → Refines (registered py s o).0 (data_of py d o)
  registered-Refines s d (raise e) r v = r
  registered-Refines s d (ok (d', id)) r v = save-contents py s d' (v d' id refl)

  -- A method that saves what a change makes of the loaded data, or saves nothing.
  pub method-Refines :
      (s : Store) (f : Data → Option Data)
      → IsCoherent py s
      → ((d' : Data) → f (contents py s) ≡ some d' → AllValid py d'.instances)
      → Refines
          (commit py (load py s).0 (f (load py s).1)).0
          (or_same py (contents py s) (f (contents py s)))
  method-Refines s f c v =
      let l = load-contents py s c in
      subst
        (λ d.
          Refines (commit py (load py s).0 (f d)).0
            (or_same py (contents py s) (f (contents py s))))
        (sym l.0) (commit-Refines (load py s).0 (contents py s) (f (contents py s)) (l.1, l.2) v)

  pub register-Refines :
      (s : Store) (f : Data → Result (Data × Text))
      → IsCoherent py s
      → ((d' : Data) (id : Text) → f (contents py s) ≡ ok (d', id) → AllValid py d'.instances)
      → Refines
          (registered py (load py s).0 (f (load py s).1)).0
          (data_of py (contents py s) (f (contents py s)))
  register-Refines s f c v =
      let l = load-contents py s c in
      subst
        (λ d.
          Refines (registered py (load py s).0 (f d)).0
            (data_of py (contents py s) (f (contents py s))))
        (sym l.0)
        (registered-Refines (load py s).0 (contents py s) (f (contents py s)) (l.1, l.2) v)

  pub sweep-Refines :
      (s : Store) (f : Data → Data)
      → IsCoherent py s
      → AllValid py (f (contents py s)).instances
      → Refines (save (load py s).0 (f (load py s).1)) (f (contents py s))
  sweep-Refines s f c v =
      let l = load-contents py s c in
      subst (λ d. Refines (save (load py s).0 (f d)) (f (contents py s))) (sym l.0)
        (save-contents py (load py s).0 (f (contents py s)) v)

  pub snapshot-Refines :
      (s : Store)
      → IsCoherent py s
      → ((snapshot py s).1 ≡ contents py s) × Refines (snapshot py s).0 (contents py s)
  unfolding snapshot
  snapshot-Refines s c = elim (Option-cases (cache_get s (file_signature s))) [
    | inl e ↦ rw (e, snapshot) (let l = load-contents py s c in (l.0, (l.1, l.2)))
    | inr (d, e) ↦ rw (e, snapshot) (hit py s s.file c e, (refl, c))
  ]

  -- One event: what the file holds afterwards is what the abstract registry holds.
  pub step-change :
      (s : Store) (ev : Event)
      → HostsArePlain py
      → HasPort ev
      → IsCoherent py s
      → Refines (step py s ev) (change py (contents py s) ev)
  unfolding step change write_elsewhere register unregister update_heartbeat set_active
      expire_instance cleanup_expired cleanup_stale list_instances cleanup_expired_in
      cleanup_stale_in
  step-change s (registers now pid port path meta) plain h c =
      register-Refines s (λ d. register_in py now d pid port path meta) c
        λ d' id e.
          register_in-AllValid py now (contents py s) pid port path meta plain h.0 h.1 e
            (contents-AllValid py s)
  step-change s (unregisters id) plain h c =
      method-Refines s (λ d. unregister_in d id) c
        λ d' e. unregister_in-AllValid py (contents py s) id e (contents-AllValid py s)
  step-change s (beats now id) plain h c =
      method-Refines s (λ d. update_heartbeat_in py now d id) c
        λ d' e. update_heartbeat_in-AllValid py now (contents py s) id e (contents-AllValid py s)
  step-change s (activates id) plain h c =
      method-Refines s (λ d. set_active_in d id) c
        λ d' e. set_active_in-AllValid py (contents py s) id e (contents-AllValid py s)
  step-change s (expires now id reason by) plain h c =
      method-Refines s (λ d. expire_instance_in py now d id reason by) c
        λ d' e.
          expire_instance_in-AllValid py now (contents py s) id reason by e (contents-AllValid py s)
  step-change s (sweeps_expired now age) plain h c =
      sweep-Refines s (λ d. (cleanup_expired_in py now age d).0) c (contents-AllValid py s)
  step-change s (sweeps_stale now timeout) plain h c =
      sweep-Refines s (λ d. (cleanup_stale_in py now timeout d).0) c
        (AllValid-expire_stale py now timeout (contents py s).instances (contents py s)
          (contents-AllValid py s))
  step-change s reads plain h c = (snapshot-Refines s c).1
  step-change s (elsewhere f) plain h c = (refl, write_elsewhere-IsCoherent py s f c)

  pub run : Store → List Event → Store
  run s [] = s
  run s (ev ∷ evs) = run (step py s ev) evs

  pub changes : Data → List Event → Data
  changes d [] = d
  changes d (ev ∷ evs) = changes (change py d ev) evs

  abbrev pub AllHavePort : List Event → Type 0
  AllHavePort [] = Unit {0}
  AllHavePort (ev ∷ evs) = HasPort ev × AllHavePort evs

  -- Along any sequence of method calls of one process and writes of other processes, the registry
  -- file holds what the same sequence makes of the data alone: no read is stale and no update is
  -- lost. Registrations are assumed to have a port from 1 to 65535, and the allowed host names to
  -- be unchanged by strip() and lower().
  pub run-changes :
      (s : Store) (evs : List Event)
      → HostsArePlain py
      → AllHavePort evs
      → IsCoherent py s
      → Refines (run s evs) (changes (contents py s) evs)
  unfolding run changes
  run-changes s [] plain h c = (refl, c)
  run-changes s (ev ∷ evs) plain h c =
      let now = step-change s ev plain h.0 c in
      subst (λ d. Refines (run (step py s ev) evs) (changes d evs)) now.0
        (run-changes (step py s ev) evs plain h.1 now.1)
