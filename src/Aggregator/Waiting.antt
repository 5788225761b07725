-- ===== src/Aggregator/Waiting.antt =====
-- The waiting loop of src/ida_multi_mcp/http_aggregator.py ends.
use ida_multi_mcp.Prelude.{
  ℕ, zero, suc, ◌+◌, ◌*◌, ◌≤◌, ◌≡◌, refl, Bool, true, not, Option, Text, is_some, ltb, if-cases,
  option-cases, arith,
}
use ida_multi_mcp.Aggregator.{
  Environment, Seen, EnsureResult, deadline_of, wait_listening, spawn_locked,
  ensure_http_aggregator,
}

-- `time.sleep(0.05)` between two rounds takes 50 milliseconds at least.
abbrev pub Sleeps : Seen → Type 0
Sleeps s = (n : ℕ) → (s.round n).time + 50 ≤ (s.round (suc n)).time

abbrev Ends : Option EnsureResult → Type 0
Ends r = is_some r ≡ true

abbrev EndsCall : Bool × Option EnsureResult → Type 0
EndsCall r = Ends r.1

module _ (env : Environment) (lan : Option Text) (host : Text) (port : ℕ) where
  wait_listening-some :
      (s : Seen) (deadline fuel n : ℕ)
      → Sleeps s
      → deadline ≤ (s.round n).time + 50 * fuel
      → is_some (wait_listening env lan host port s deadline (suc fuel) n) ≡ true
  unfolding wait_listening
  wait_listening-some s deadline zero n h le = ground arith
  wait_listening-some s deadline (suc fuel) n h le =
      let step = h n in
      if-cases Ends (ltb (s.round n).time deadline)
        (λ e.
          if-cases Ends (s.round n).listening (λ l. refl)
            (λ l.
              if-cases Ends (s.round n).exited
                (λ x. if-cases Ends (s.round n).listening_after (λ a. refl) (λ a. refl))
                (λ x. wait_listening-some s deadline fuel (suc n) h (omega arith))))
        (λ e. if-cases Ends s.listening_last (λ l. refl) (λ l. refl))

  -- A call returns a result within the rounds that fit into the longer of its timeout and 100
  -- milliseconds, at 50 milliseconds a round, and one more.
  pub ensure_http_aggregator-some :
      (enabled : Bool) (s : Seen) (rounds : ℕ)
      → Sleeps s
      → s.start ≤ (s.round 0).time
      → 100 ≤ 50 * rounds
      → s.ready_timeout ≤ 50 * rounds
      → is_some (ensure_http_aggregator env lan host port enabled s (suc rounds)).1 ≡ true
  unfolding ensure_http_aggregator spawn_locked
  ensure_http_aggregator-some enabled s rounds h st a b =
      let due : deadline_of env lan host port s ≤ (s.round 0).time + 50 * rounds = ground arith in
      let done = wait_listening-some s (deadline_of env lan host port s) rounds 0 h due in
      if-cases EndsCall (not enabled) (λ e. refl)
        (λ e.
          if-cases EndsCall s.listening (λ e. refl)
            (λ e.
              option-cases EndsCall s.lock_error
                (λ q.
                  if-cases EndsCall s.listening_locked (λ u. refl)
                    (λ u.
                      option-cases EndsCall s.log_error
                        (λ l. option-cases EndsCall s.popen_error (λ r. done) (λ x r. refl))
                        (λ x r. refl)))
                (λ x q. if-cases EndsCall s.listening_unlocked (λ u. refl) (λ u. refl))))
