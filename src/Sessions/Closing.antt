-- ===== src/Sessions/Closing.antt =====
-- `close_session` and `close_all_sessions` of src/ida_multi_mcp/idalib_manager.py: every worker is
-- told to stop and forgotten.
use ida_multi_mcp.Prelude.{
  ℕ, ◌≡◌, ◌⊎◌, refl, ap, ◌∙◌, inl, inr, Bool, true, false, List, [], ◌∷◌, ◌++◌, none, some, Text,
  text_eq_iff, text_eq_refl, Dict, lookup, contains, keys, Distinct, length, lookup-erase,
  if◌then◌else◌, if-cases, arith,
}
use ida_multi_mcp.Registry.Schema.{Python}
use ida_multi_mcp.Registry.Coherence.{IsCoherent}
use ida_multi_mcp.Sessions.{
  Signal, ctrl_break, terminate, kill, Effect, stops, lingers, fails, Machine, Manager, forget,
  terminate_gracefully, forced, close_session, close_each, close_all_sessions,
}
use ida_multi_mcp.Sessions.Unregister.{entry, entry-unregister, unregister-Refines}

module _ (m : Machine) where
  -- A worker has exited already, stopped at the last signal it got, or was killed.
  abbrev pub Ended : ℕ → List Signal → Type 0
  Ended pid [] = m.exited pid ≡ true
  Ended pid (x ∷ []) = (m.effect pid x ≡ stops) ⊎ (x ≡ kill)
  Ended pid (x ∷ y ∷ ys) = Ended pid (y ∷ ys)

  second_signal :
      (pid : ℕ) (first : Signal) (e : Effect)
      → m.effect pid terminate ≡ e
      → Ended pid (
          first ∷ (elim e [
            | stops ↦ terminate ∷ []
            | lingers ↦ terminate ∷ kill ∷ []
            | fails ↦ terminate ∷ kill ∷ []
          ]))
  second_signal pid first stops q = inl q
  second_signal pid first lingers q = inr refl
  second_signal pid first fails q = inr refl

  then_forced :
      (pid : ℕ) (first : Signal) (windows : Bool) → Ended pid (first ∷ forced m pid windows)
  then_forced pid first false = inr refl
  then_forced pid first true = second_signal pid first (m.effect pid terminate) refl

  first_signal :
      (pid : ℕ) (first : Signal) (windows : Bool) (e : Effect)
      → m.effect pid first ≡ e
      → Ended pid (elim e [
        | stops ↦ first ∷ []
        | lingers ↦ first ∷ forced m pid windows
        | fails ↦ first ∷ forced m pid windows
      ])
  first_signal pid first windows stops q = inl q
  first_signal pid first windows lingers q = then_forced pid first windows
  first_signal pid first windows fails q = then_forced pid first windows

  pub terminate_gracefully-Ended : (pid : ℕ) → Ended pid (terminate_gracefully m pid)
  unfolding terminate_gracefully
  terminate_gracefully-Ended pid =
      let first = (if m.windows then ctrl_break else terminate) in
      if-cases (Ended pid) (m.exited pid) (λ e. e)
        (λ e. first_signal pid first m.windows (m.effect pid first) refl)

  abbrev pub AllEnded : List (ℕ × List Signal) → Type 0
  AllEnded [] = Unit {0}
  AllEnded ((pid, sent) ∷ rest) = Ended pid sent × AllEnded rest

  AllEnded-append :
      (xs ys : List (ℕ × List Signal)) → AllEnded xs → AllEnded ys → AllEnded (xs ++ ys)
  AllEnded-append [] ys h k = k
  AllEnded-append (x ∷ xs) ys h k = (h.0, AllEnded-append xs ys h.1 k)

module _ (py : Python) (m : Machine) where
  -- The process ids of the workers that got signals, in order.
  abbrev pub pids_of : List (ℕ × List Signal) → List ℕ
  pids_of [] = []
  pids_of ((pid, sent) ∷ rest) = pid ∷ pids_of rest

  abbrev pub values : Dict ℕ → List ℕ
  values [] = []
  values ((id, pid) ∷ d) = pid ∷ values d

  -- What closing the workers of a list does.
  pub record Closes (items : Dict ℕ) (mg : Manager) (r : Manager × List (ℕ × List Signal))
      : Type 0 where
    pub coherent : IsCoherent py r.0.store
    pub registry :
        (a : Text) → entry py a r.0.store ≡ (if contains a items then none else entry py a mg.store)
    pub workers :
        (a : Text)
        → lookup a r.0.processes ≡ (if contains a items then none else lookup a mg.processes)
    pub ended : AllEnded m r.1
    pub each : pids_of r.1 ≡ values items

  -- The processes hold the workers of the list.
  abbrev pub Holds : Dict ℕ → Manager → Type 0
  Holds [] mg = Unit {0}
  Holds ((id, pid) ∷ more) mg = (lookup id mg.processes ≡ some pid) × Holds more mg

  Holds-forget :
      (items : Dict ℕ) (mg : Manager) (id : Text)
      → contains id items ≡ false
      → Holds items mg
      → Holds items (forget py mg id)
  unfolding forget lookup
  Holds-forget [] mg id n h = tt
  Holds-forget ((j, pid) ∷ more) mg id n h = (
    lookup-erase id j mg.processes ∙ ground (arith, text_eq_iff id j, text_eq_iff j id),
    Holds-forget more mg id (ground arith) h.1,
  )

  close_each-Closes :
      (items : Dict ℕ) (mg : Manager)
      → Distinct items
      → Holds items mg
      → IsCoherent py mg.store
      → Closes items mg (close_each py m (keys items) mg)
  unfolding close_each close_session forget lookup
  close_each-Closes [] mg h k c = record {
    coherent = c;
    registry = λ a. refl;
    workers = λ a. refl;
    ended = tt;
    each = refl;
  }
  close_each-Closes ((id, pid) ∷ more) mg h k c =
      let mg' = forget py mg id in
      let ih =
        close_each-Closes more mg' h.1 (Holds-forget more mg id h.0 k.1)
          (unregister-Refines py mg.store id c).1 in
      rw (close_each, close_session, k.0)
        (record {
          coherent = ih.coherent;
          registry = λ a.
              let q = ih.registry a in let r = entry-unregister py mg.store id a c in ground arith;
          workers =
              λ a. let q = ih.workers a in let r = lookup-erase id a mg.processes in ground arith;
          ended = (terminate_gracefully-Ended m pid, ih.ended);
          each = ap (λ (ps : List ℕ). pid ∷ ps) ih.each;
        })

  length-keys : (d : Dict ℕ) → length (keys d) ≡ length d
  length-keys [] = refl
  length-keys ((k, v) ∷ d) = omega (arith, length-keys d)

  Holds-lookup :
      (items : Dict ℕ) (mg : Manager)
      → Distinct items
      → ((a : Text) (pid : ℕ) → lookup a items ≡ some pid → lookup a mg.processes ≡ some pid)
      → Holds items mg
  unfolding lookup
  Holds-lookup [] mg h f = tt
  Holds-lookup ((id, pid) ∷ more) mg h f = (
    f id pid (rw (text_eq_refl id) refl),
    Holds-lookup more mg h.1 λ a q e. f a q (ground (arith, text_eq_iff id a)),
  )

  -- Closing all sessions tells each worker to stop, in order: it had exited, or it stops at the last
  -- signal, or that signal is a kill. No worker is left, none of them is registered, and every
  -- other registration is as before.
  pub close_all_sessions_lem :
      (mg : Manager)
      → Distinct mg.processes
      → IsCoherent py mg.store
      → let (last, count, sent) = close_all_sessions py m mg in
        ((a : Text)
          → (lookup a last.processes ≡ none)
            × (entry py a last.store
                ≡ (if contains a mg.processes then none else entry py a mg.store)))
        × (count ≡ length mg.processes)
        × (pids_of sent ≡ values mg.processes)
        × AllEnded m sent
  unfolding close_all_sessions
  close_all_sessions_lem mg h c =
      let r =
        close_each-Closes mg.processes mg h (Holds-lookup mg.processes mg h (λ a pid e. e)) c in
      (
        λ a. let q = r.workers a in (ground arith, r.registry a),
        length-keys mg.processes,
        r.each,
        r.ended,
      )
