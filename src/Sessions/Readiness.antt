-- ===== src/Sessions/Readiness.antt =====
-- What `_wait_for_ready` of src/ida_multi_mcp/idalib_manager.py has seen when it ends.
use ida_multi_mcp.Prelude.{
  ℕ, zero, suc, ◌+◌, ◌≤◌, ◌<◌, ◌≡◌, ◌⊎◌, inl, inr, Bool, true, false, Option, none, some, pos, Text,
  ltb, ◌==◌, ==_iff, if-cases, Bool-cases, arith,
}
use mathlib.Core.Path.{subst}
use ida_multi_mcp.Health.{ping_instance}
use ida_multi_mcp.Sessions.Launch.{Launch, wait_for_ready}

module _ (host : Text) (l : Launch) where
  -- The worker answers a ping in the n-th round.
  abbrev pub answers : ℕ → Bool
  answers n = ping_instance (l.round n).world host (pos l.free_port)

  -- The n-th round begins in time, the worker is alive, and it does not answer.
  abbrev pub IsSilent : ℕ → Type 0
  IsSilent n =
      ((l.round n).time < l.start + l.timeout) × ((l.round n).exited ≡ false) × (answers n ≡ false)

  abbrev pub AllSilent : ℕ → Type 0
  AllSilent n = (j : ℕ) → j < n → IsSilent j

  -- The first round that is not silent is one in time in which the worker lives and answers.
  abbrev pub IsReady : Type 0
  IsReady =
      (n : ℕ) × AllSilent n
      × ((l.round n).time < l.start + l.timeout)
      × ((l.round n).exited ≡ false)
      × (answers n ≡ true)

  -- In the first round that is not silent the time is over, or the worker has exited.
  abbrev pub IsLost : Type 0
  IsLost =
      (n : ℕ) × AllSilent n
      × ((l.start + l.timeout ≤ (l.round n).time) ⊎ ((l.round n).exited ≡ true))

  abbrev pub Outcome : Option Bool → Type 0
  Outcome none = Unit {0}
  Outcome (some true) = IsReady
  Outcome (some false) = IsLost

  AllSilent-suc : (n : ℕ) → AllSilent n → IsSilent n → AllSilent (suc n)
  AllSilent-suc n before now j h = elim (Bool-cases (n == j)) [
    | inl e ↦ subst IsSilent ((==_iff n j).0 e) now
    | inr e ↦ before j (ground arith)
  ]

  pub wait_for_ready-Outcome :
      (fuel n : ℕ) → AllSilent n → Outcome (wait_for_ready host l.free_port l fuel n)
  unfolding wait_for_ready
  wait_for_ready-Outcome zero n before = tt
  wait_for_ready-Outcome (suc fuel) n before =
      if-cases Outcome (ltb (l.round n).time (l.start + l.timeout))
        (λ in_time.
          if-cases Outcome (l.round n).exited (λ gone. (n, before, inr gone))
            (λ alive.
              if-cases Outcome (answers n) (λ ping. (n, before, ground arith, alive, ping))
                (λ silent.
                  wait_for_ready-Outcome fuel (suc n)
                    (AllSilent-suc n before (ground arith, alive, silent)))))
        (λ late. (n, before, inl (ground arith)))
