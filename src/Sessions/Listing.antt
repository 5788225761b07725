-- ===== src/Sessions/Listing.antt =====
-- `list_sessions` of src/ida_multi_mcp/idalib_manager.py: the living workers are listed, the dead
-- ones forgotten.
use ida_multi_mcp.Prelude.{
  ℕ, ◌≡◌, refl, ap, ◌∙◌, inl, inr, Bool, true, false, not, List, [], ◌∷◌, Option, none, some, pos,
  Text, text_eq, text_eq_iff, Dict, lookup, erase, keys, Distinct, keep_if, lookup-erase,
  if◌then◌else◌, Bool-cases, arith,
}
use ida_multi_mcp.Registry.Schema.{Python, Info}
use ida_multi_mcp.Registry.Api.{get_instance}
use ida_multi_mcp.Registry.Coherence.{IsCoherent}
use ida_multi_mcp.Sessions.{
  Machine, Manager, with_store, forget, Session, session, list_each, list_sessions,
}
use ida_multi_mcp.Sessions.Unregister.{
  entry, entry-unregister, unregister-Refines, get_instance-Refines, entry-get_instance,
}

module _ (py : Python) (m : Machine) where
  abbrev pub is_living : Text × ℕ → Bool
  is_living (id, pid) = m.world.is_process_alive (pos pid)

  -- Whether a worker of the list under this id is dead.
  abbrev pub is_dead_in : Dict ℕ → Text → Bool
  is_dead_in [] a = false
  is_dead_in ((id, pid) ∷ more) a =
      if text_eq id a then not (is_living (id, pid)) else is_dead_in more a

  abbrev pub ids_of : List Session → List Text
  ids_of [] = []
  ids_of (x ∷ xs) = x.instance_id ∷ ids_of xs

  session-id : (id : Text) (pid : ℕ) (o : Option Info) → (session id pid o).instance_id ≡ id
  session-id id pid none = refl
  session-id id pid (some info) = refl

  absent_living :
      (items : Dict ℕ) (id a : Text)
      → text_eq id a ≡ true
      → lookup id items ≡ none
      → is_dead_in items a ≡ false
  unfolding lookup
  absent_living [] id a e h = refl
  absent_living ((j, pid) ∷ more) id a e h =
      ground (arith, absent_living more id a e, text_eq_iff id a, text_eq_iff j a, text_eq_iff j id)

  -- What a pass over the items does to the registry and the processes.
  pub record Swept (items : Dict ℕ) (mg last : Manager) : Type 0 where
    pub coherent : IsCoherent py last.store
    pub registry :
        (a : Text)
        → entry py a last.store ≡ (if is_dead_in items a then none else entry py a mg.store)
    pub workers :
        (a : Text)
        → lookup a last.processes ≡ (if is_dead_in items a then none else lookup a mg.processes)

  Swept-living :
      (id : Text) (pid : ℕ) (more : Dict ℕ) (mg mg' last : Manager)
      → is_living (id, pid) ≡ true
      → lookup id more ≡ none
      → ((a : Text) → entry py a mg'.store ≡ entry py a mg.store)
      → mg'.processes ≡ mg.processes
      → Swept more mg' last
      → Swept ((id, pid) ∷ more) mg last
  Swept-living id pid more mg mg' last l h e p s = record {
    coherent = s.coherent;
    registry = λ a. let q = s.registry a in let r = e a in ground (arith, absent_living more id a);
    workers = λ a.
        let q = s.workers a in let r = ap (lookup a) p in ground (arith, absent_living more id a);
  }

  Swept-dead :
      (id : Text) (pid : ℕ) (more : Dict ℕ) (mg mg' last : Manager)
      → is_living (id, pid) ≡ false
      → ((a : Text) → entry py a mg'.store ≡ (if text_eq id a then none else entry py a mg.store))
      → mg'.processes ≡ erase id mg.processes
      → Swept more mg' last
      → Swept ((id, pid) ∷ more) mg last
  Swept-dead id pid more mg mg' last l e p s = record {
    coherent = s.coherent;
    registry = λ a. let q = s.registry a in let r = e a in ground arith;
    workers = λ a.
        let q = s.workers a in
        let r = ap (lookup a) p ∙ lookup-erase id a mg.processes in ground arith;
  }

  list_each-Swept :
      (items : Dict ℕ) (mg : Manager)
      → Distinct items
      → IsCoherent py mg.store
      → Swept items mg (list_each py m items mg).0
        × (ids_of (list_each py m items mg).1 ≡ keys (keep_if is_living items))
  unfolding list_each forget
  list_each-Swept [] mg h c =
      (record { coherent = c; registry = λ a. refl; workers = λ a. refl }, refl)
  list_each-Swept ((id, pid) ∷ more) mg h c =
      let got = get_instance-Refines py mg.store id c in
      let s = (get_instance py mg.store id).0 in
      elim (Bool-cases (m.world.is_process_alive (pos pid))) [
        | inl e ↦
            let ih = list_each-Swept more (with_store mg s) h.1 got.1.1 in
            rw e (
              Swept-living id pid more mg (with_store mg s)
                  (list_each py m more (with_store mg s)).0 e (ground arith)
                  (λ a. entry-get_instance py mg.store id a c) refl ih.0,
              rw (session-id id pid (get_instance py mg.store id).1)
                  (ap (λ (r : List Text). id ∷ r) ih.1),
            )
        | inr e ↦
            let mg' = forget py (with_store mg s) id in
            let ih = list_each-Swept more mg' h.1 (unregister-Refines py s id got.1.1).1 in
            rw e (
              Swept-dead id pid more mg mg' (list_each py m more mg').0 e
                  (λ a.
                    entry-unregister py s id a got.1.1
                    ∙ ap (λ (o : Option Info). if text_eq id a then none else o)
                        (entry-get_instance py mg.store id a c))
                  refl ih.0,
              ih.1,
            )
      ]

  -- The listing reports exactly the living workers, in order; the dead ones are gone from the
  -- processes and from the registry, and everything else in both is as before.
  pub list_sessions_lem :
      (mg : Manager)
      → Distinct mg.processes
      → IsCoherent py mg.store
      → let (last, listed) = list_sessions py m mg in
        (ids_of listed ≡ keys (keep_if is_living mg.processes))
        × ((a : Text)
            → (lookup a last.processes
                ≡ (if is_dead_in mg.processes a then none else lookup a mg.processes))
              × (entry py a last.store
                  ≡ (if is_dead_in mg.processes a then none else entry py a mg.store)))
  unfolding list_sessions
  list_sessions_lem mg h c =
      let s = list_each-Swept mg.processes mg h c in (s.1, λ a. (s.0.workers a, s.0.registry a))
