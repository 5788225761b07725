-- ===== src/Aggregator/Answers.antt =====
-- What the calls of src/ida_multi_mcp/http_aggregator.py answer and when they start a child.
use ida_multi_mcp.Prelude.{
  ℕ, zero, suc, ◌≡◌, refl, Bool, true, false, not, Option, none, some, Text, ltb, is_some,
  if◌then◌else◌, if-cases, option-cases, arith,
}
use ida_multi_mcp.Aggregator.{
  Environment, Action, already_running, started, Seen, deadline_of, EnsureResult, wait_listening,
  spawn_locked, ensure_http_aggregator, advertised_http_url,
}

-- A result names the address that was asked for; it says that a listener runs, with the url and no
-- error, or it has an error and no url.
abbrev pub success : Action → Bool
success already_running = true
success started = true
success _ = false

abbrev pub IsConsistent : Environment → Option Text → Text → ℕ → EnsureResult → Type 0
IsConsistent env lan host port r =
    (r.host ≡ host)
    × (r.port ≡ port)
    × (r.url ≡ (if success r.action then some (advertised_http_url env lan host port) else none))
    × (is_some r.error ≡ not (success r.action))

-- One of the probes that a call makes found a listener.
pub data Heard (s : Seen) : Type 0 where
  first : s.listening ≡ true → Heard s
  unlocked : s.listening_unlocked ≡ true → Heard s
  locked : s.listening_locked ≡ true → Heard s
  waiting : (n : ℕ) → (s.round n).listening ≡ true → Heard s
  after_exit : (n : ℕ) → (s.round n).listening_after ≡ true → Heard s
  last : s.listening_last ≡ true → Heard s

module _ (env : Environment) (lan : Option Text) (host : Text) (port : ℕ) where
  -- What a call may return: a consistent result, a success only if a probe found a listener.
  abbrev pub Sound : Seen → Option EnsureResult → Type 0
  Sound s none = Unit {0}
  Sound s (some r) = IsConsistent env lan host port r × ((success r.action ≡ true) → Heard s)

  wait_listening-Sound :
      (s : Seen) (deadline fuel n : ℕ)
      → Sound s (wait_listening env lan host port s deadline fuel n)
  unfolding wait_listening
  wait_listening-Sound s deadline zero n = tt
  wait_listening-Sound s deadline (suc fuel) n =
      if-cases (Sound s) (ltb (s.round n).time deadline)
        (λ e.
          if-cases (Sound s) (s.round n).listening
            (λ l. ((refl, refl, refl, refl), λ h. waiting n l))
            (λ l.
              if-cases (Sound s) (s.round n).exited
                (λ x.
                  if-cases (Sound s) (s.round n).listening_after
                    (λ a. ((refl, refl, refl, refl), λ h. after_exit n a))
                    (λ a. ((refl, refl, refl, refl), λ h. absurd (ground arith))))
                (λ x. wait_listening-Sound s deadline fuel (suc n))))
        (λ e.
          if-cases (Sound s) s.listening_last (λ l. ((refl, refl, refl, refl), λ h. last l))
            (λ l. ((refl, refl, refl, refl), λ h. absurd (ground arith))))

  abbrev SoundCall : Seen → Bool × Option EnsureResult → Type 0
  SoundCall s r = Sound s r.1

  spawn_locked-Sound : (s : Seen) (fuel : ℕ) → SoundCall s (spawn_locked env lan host port s fuel)
  unfolding spawn_locked
  spawn_locked-Sound s fuel =
      option-cases (SoundCall s) s.log_error
        (λ q.
          option-cases (SoundCall s) s.popen_error
            (λ q. wait_listening-Sound s (deadline_of env lan host port s) fuel 0)
            (λ e q. ((refl, refl, refl, refl), λ h. absurd (ground arith))))
        (λ e q. ((refl, refl, refl, refl), λ h. absurd (ground arith)))

  -- Whatever a call returns names the address asked for, and either reports success with the url
  -- and no error, after a probe found a listener, or has an error and no url.
  pub ensure_http_aggregator-Sound :
      (enabled : Bool) (s : Seen) (fuel : ℕ)
      → Sound s (ensure_http_aggregator env lan host port enabled s fuel).1
  unfolding ensure_http_aggregator
  ensure_http_aggregator-Sound false s fuel = ((refl, refl, refl, refl), λ h. absurd (ground arith))
  ensure_http_aggregator-Sound true s fuel =
      if-cases (SoundCall s) s.listening (λ e. ((refl, refl, refl, refl), λ h. first e))
        (λ e.
          option-cases (SoundCall s) s.lock_error
            (λ q.
              if-cases (SoundCall s) s.listening_locked
                (λ u. ((refl, refl, refl, refl), λ h. locked u)) (λ u. spawn_locked-Sound s fuel))
            (λ x q.
              if-cases (SoundCall s) s.listening_unlocked
                (λ u. ((refl, refl, refl, refl), λ h. unlocked u))
                (λ u. ((refl, refl, refl, refl), λ h. absurd (ground arith)))))
