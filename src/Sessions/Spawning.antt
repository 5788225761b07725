-- ===== src/Sessions/Spawning.antt =====
-- `spawn_session` of src/ida_multi_mcp/idalib_manager.py: what becomes of a worker that was started.
use ida_multi_mcp.Prelude.{
  ℕ, zero, suc, ◌+◌, ◌*◌, ◌≤◌, ◌≡◌, ◌⊎◌, refl, ap, ◌∙◌, inl, inr, Bool, true, false, not, List, [],
  ◌∷◌, Option, none, some, pos, Text, text_eq, text_eq_refl, lookup, contains, lookup-insert,
  is_some, ltb, if-cases, arith,
}
use ida_multi_mcp.Registry.Schema.{Python, Info, Data}
use ida_multi_mcp.Registry.Disk.{Store, load}
use ida_multi_mcp.Registry.Changes.{Result, ok, raise, register_in, instance_info}
use ida_multi_mcp.Registry.Api.{register, registered}
use ida_multi_mcp.Registry.Coherence.{contents, IsCoherent, load-contents, contents-AllValid}
use ida_multi_mcp.Registry.Valid.{HostsArePlain, register_in-AllValid}
use ida_multi_mcp.Health.{ping_instance}
use ida_multi_mcp.Registry.Refinement.{data_of, register-Refines}
use ida_multi_mcp.Registry.Safety.{register_in_lem}
use ida_multi_mcp.Sessions.{
  Signal, terminate, kill, Effect, stops, lingers, fails, Machine, Manager,
}
use ida_multi_mcp.Sessions.Launch.{
  Launch, Popen, no_python, failed, child, Spawned, not_available, no_executable, no_file,
  spawn_error, not_ready, spawned, raises, spawn_session, wait_for_ready, after_wait, keep_session,
  give_up, binary_name, worker_metadata,
}
use ida_multi_mcp.Sessions.Readiness.{IsReady, IsLost, Outcome, wait_for_ready-Outcome}
use ida_multi_mcp.Sessions.Unregister.{entry}

abbrev IsDecided : Option Bool → Type 0
IsDecided o = is_some o ≡ true

module _ (py : Python) (m : Machine) (host : Text) (l : Launch) where
  -- What is registered for the worker.
  abbrev pub worker_info : ℕ → Info
  worker_info pid =
      instance_info py l.now pid l.free_port host l.resolved_path
        (worker_metadata host (binary_name py m host l) l.resolved_path)

  -- Nothing was started and nothing has changed.
  abbrev pub Untouched : Manager → Manager → List Signal → Type 0
  Untouched mg last sent =
      ((pid : ℕ) → l.popen ≡ child pid → (l.idalib_available ≡ false) ⊎ (l.is_file ≡ false))
      × (last ≡ mg)
      × (sent ≡ [])

  -- The child stopped when told to, or was killed.
  abbrev pub GaveUp : ℕ → List Signal → Type 0
  GaveUp pid sent =
      ((m.effect pid terminate ≡ stops) × (sent ≡ terminate ∷ [])) ⊎ (sent ≡ terminate ∷ kill ∷ [])

  give_up-GaveUp : (pid : ℕ) → GaveUp pid (give_up m pid)
  give_up-GaveUp pid = go (m.effect pid terminate) refl
    where
      go :
          (e : Effect)
          → m.effect pid terminate ≡ e
          → GaveUp pid (elim e [
            | stops ↦ terminate ∷ []
            | lingers ↦ terminate ∷ kill ∷ []
            | fails ↦ terminate ∷ kill ∷ []
          ])
      go stops q = inl (q, refl)
      go lingers q = inr refl
      go fails q = inr refl

  -- What the result of a launch means.
  abbrev pub Means : Manager → Manager × Spawned × List Signal → Type 0
  Means mg (last, not_available, sent) = (l.idalib_available ≡ false) × Untouched mg last sent
  Means mg (last, no_file path, sent) =
      (l.is_file ≡ false) × (path ≡ l.input_path) × Untouched mg last sent
  Means mg (last, no_executable, sent) = (l.popen ≡ no_python) × Untouched mg last sent
  Means mg (last, spawn_error e, sent) = (l.popen ≡ failed e) × Untouched mg last sent
  Means mg (last, not_ready t, sent) =
      (pid : ℕ) × (l.popen ≡ child pid)
      × IsLost host l
      × (t ≡ l.timeout)
      × (last ≡ mg)
      × GaveUp pid sent
  Means mg (last, spawned id h port pid name, sent) =
      (l.popen ≡ child pid)
      × IsReady host l
      × (h ≡ host)
      × (port ≡ l.free_port)
      × (name ≡ binary_name py m host l)
      × (contains id (contents py mg.store).instances ≡ false)
      × (lookup id last.processes ≡ some pid)
      × (entry py id last.store ≡ some (worker_info pid))
      × ((a : Text)
          → text_eq id a ≡ false
          → (lookup a last.processes ≡ lookup a mg.processes)
            × (entry py a last.store ≡ entry py a mg.store))
      × (sent ≡ [])
  Means mg (last, raises e, sent) =
      (pid : ℕ) × (l.popen ≡ child pid)
      × IsReady host l
      × (register_in py l.now (contents py mg.store) pid l.free_port l.resolved_path
            (worker_metadata host (binary_name py m host l) l.resolved_path)
          ≡ raise e)
      × (last.processes ≡ mg.processes)
      × (contents py last.store ≡ contents py mg.store)
      × (sent ≡ [])

  -- The same for a launch that may have run out of fuel.
  abbrev pub MeansIf : Manager → Option (Manager × Spawned × List Signal) → Type 0
  MeansIf mg none = Unit {0}
  MeansIf mg (some r) = Means mg r

  -- The outcome of `register`, by that of the change of the data.
  abbrev result_of : Result (Data × Text) → Result Text
  result_of (ok (d, id)) = ok id
  result_of (raise e) = raise e

  registered-result_of :
      (s : Store) (o : Result (Data × Text)) → (registered py s o).1 ≡ result_of o
  registered-result_of s (ok (d, id)) = refl
  registered-result_of s (raise e) = refl

  abbrev change_of : Manager → ℕ → Data → Result (Data × Text)
  change_of mg pid d =
      register_in py l.now d pid l.free_port l.resolved_path
        (worker_metadata host (binary_name py m host l) l.resolved_path)

  keep-Means :
      (mg : Manager) (pid : ℕ) (r : Store × Result Text) (o : Result (Data × Text))
      → l.popen ≡ child pid
      → r.1 ≡ result_of o
      → contents py r.0 ≡ data_of py (contents py mg.store) o
      → change_of mg pid (contents py mg.store) ≡ o
      → IsReady host l
      → Means mg (
        (keep_session py m host l mg pid (binary_name py m host l) r).0,
        (keep_session py m host l mg pid (binary_name py m host l) r).1,
        [],
      )
  keep-Means mg pid (s, raise e) (raise e') p q c h ready =
      (pid, p, ready, h ∙ ground arith, refl, c, refl)
  keep-Means mg pid (s, raise e) (ok (d, id)) p q c h ready = absurd (ground arith)
  keep-Means mg pid (s, ok id) (raise e) p q c h ready = absurd (ground arith)
  keep-Means mg pid (s, ok id) (ok (d, id')) p q c h ready =
      let same : id ≡ id' = ground arith in
      let k =
        register_in_lem py l.now (contents py mg.store) pid l.free_port l.resolved_path
          (worker_metadata host (binary_name py m host l) l.resolved_path) h in
      rw same (
        p,
        ready,
        refl,
        refl,
        refl,
        k.2,
        lookup-insert id' id' pid mg.processes ∙ rw (text_eq_refl id') refl,
        ap (λ (e : Data). lookup id' e.instances) c ∙ k.3,
        λ a n. (
          lookup-insert id' a pid mg.processes ∙ rw n refl,
          ap (λ (e : Data). lookup a e.instances) c ∙ k.4 a n,
        ),
        refl,
      )

  register-result_of :
      (mg : Manager) (pid : ℕ)
      → IsCoherent py mg.store
      → (register py mg.store l.now pid l.free_port l.resolved_path
          (worker_metadata host (binary_name py m host l) l.resolved_path)).1
        ≡ result_of (change_of mg pid (contents py mg.store))
  unfolding register
  register-result_of mg pid c =
      registered-result_of (load py mg.store).0 (change_of mg pid (load py mg.store).1)
      ∙ ap (λ (d : Data). result_of (change_of mg pid d)) (load-contents py mg.store c).0

  register-contents :
      (mg : Manager) (pid : ℕ)
      → HostsArePlain py
      → 1 ≤ l.free_port
      → l.free_port ≤ 65535
      → IsCoherent py mg.store
      → contents py
          (register py mg.store l.now pid l.free_port l.resolved_path
            (worker_metadata host (binary_name py m host l) l.resolved_path)).0
        ≡ data_of py (contents py mg.store) (change_of mg pid (contents py mg.store))
  unfolding register
  register-contents mg pid plain lo hi c =
      (register-Refines py mg.store (change_of mg pid) c λ d' id e.
        register_in-AllValid py l.now (contents py mg.store) pid l.free_port l.resolved_path
          (worker_metadata host (binary_name py m host l) l.resolved_path) plain lo hi e
          (contents-AllValid py mg.store)).0

  -- `time.sleep(0.5)` between two rounds takes 500 milliseconds at least.
  abbrev pub Sleeps : Type 0
  Sleeps = (n : ℕ) → (l.round n).time + 500 ≤ (l.round (suc n)).time

  wait_for_ready-some :
      (fuel n : ℕ)
      → Sleeps
      → l.start + l.timeout ≤ (l.round n).time + 500 * fuel
      → is_some (wait_for_ready host l.free_port l (suc fuel) n) ≡ true
  unfolding wait_for_ready
  wait_for_ready-some zero n h le = ground arith
  wait_for_ready-some (suc fuel) n h le =
      let step = h n in
      if-cases IsDecided (ltb (l.round n).time (l.start + l.timeout))
        (λ e.
          if-cases IsDecided (l.round n).exited (λ x. refl)
            (λ x.
              if-cases IsDecided (ping_instance (l.round n).world host (pos l.free_port))
                (λ p. refl) (λ p. wait_for_ready-some fuel (suc n) h (omega arith))))
        (λ e. refl)

  -- There is a result, and it means what it says.
  abbrev pub Returns : Manager → Option (Manager × Spawned × List Signal) → Type 0
  Returns mg o = (is_some o ≡ true) × MeansIf mg o

  after_wait-Returns :
      (mg : Manager) (pid : ℕ) (o : Option Bool)
      → HostsArePlain py
      → 1 ≤ l.free_port
      → l.free_port ≤ 65535
      → IsCoherent py mg.store
      → l.popen ≡ child pid
      → is_some o ≡ true
      → Outcome host l o
      → Returns mg (after_wait py m host l mg pid o)
  after_wait-Returns mg pid none plain lo hi c p h out = absurd (ground arith)
  after_wait-Returns mg pid (some false) plain lo hi c p h out =
      (refl, (pid, p, out, refl, refl, give_up-GaveUp pid))
  after_wait-Returns mg pid (some true) plain lo hi c p h out = (
    refl,
    keep-Means mg pid
        (register py mg.store l.now pid l.free_port l.resolved_path
          (worker_metadata host (binary_name py m host l) l.resolved_path))
        (change_of mg pid (contents py mg.store)) p (register-result_of mg pid c)
        (register-contents mg pid plain lo hi c) refl out,
  )

  by_popen :
      (mg : Manager) (o : Option Bool) (q : Popen)
      → HostsArePlain py
      → 1 ≤ l.free_port
      → l.free_port ≤ 65535
      → IsCoherent py mg.store
      → l.popen ≡ q
      → is_some o ≡ true
      → Outcome host l o
      → Returns mg (elim q [
        | no_python ↦ some (mg, no_executable, [])
        | failed e ↦ some (mg, spawn_error e, [])
        | child pid ↦ after_wait py m host l mg pid o
      ])
  by_popen mg o no_python plain lo hi c p h out =
      (refl, (p, ((λ pid e. absurd (ground arith)), refl, refl)))
  by_popen mg o (failed t) plain lo hi c p h out =
      (refl, (p, ((λ pid e. absurd (ground arith)), refl, refl)))
  by_popen mg o (child pid) plain lo hi c p h out =
      after_wait-Returns mg pid o plain lo hi c p h out

  -- Within the rounds that fit into its timeout, at 500 milliseconds a round, and one more, a launch
  -- ends in one of these, for the reason that its result names: nothing was started and nothing
  -- changed; the child exited or the time was over before it answered a ping, and it stopped when told
  -- to or was killed; it answered in time, but its registration raised, and it is neither managed nor
  -- registered nor told to stop; or it answered in time, and is managed and registered under a free
  -- id, with its port and process id, which the result has with the host and the name, all else being
  -- as before. The port is supposed to be from 1 to 65535, the allowed host names to be unchanged by
  -- strip() and lower(), and the clock to advance by 500 milliseconds a round.
  pub spawn_session-Returns :
      (mg : Manager) (rounds : ℕ)
      → HostsArePlain py
      → 1 ≤ l.free_port
      → l.free_port ≤ 65535
      → IsCoherent py mg.store
      → Sleeps
      → l.start ≤ (l.round 0).time
      → l.timeout ≤ 500 * rounds
      → Returns mg (spawn_session py m host l mg (suc rounds))
  unfolding spawn_session
  spawn_session-Returns mg rounds plain lo hi c s st t =
      if-cases (Returns mg) (not l.idalib_available)
        (λ e. (refl, (ground arith, ((λ pid q. inl (ground arith)), refl, refl))))
        (λ e.
          if-cases (Returns mg) (not l.is_file)
            (λ f. (refl, (ground arith, refl, ((λ pid q. inr (ground arith)), refl, refl))))
            (λ f.
              by_popen mg (wait_for_ready host l.free_port l (suc rounds) 0) l.popen plain lo hi c
                refl (wait_for_ready-some rounds 0 s (omega arith))
                (wait_for_ready-Outcome host l (suc rounds) 0 (λ j before. absurd (omega arith)))))
