-- ===== src/Lock/Tests.antt =====
-- Two threads of one process and one of another at the lock file: 0 and 2 belong to process 0, 1 to
-- process 1. Thread 0 holds the file; thread 1 has its process's lock and fails to get the file.
use ida_multi_mcp.Prelude.{ℕ, ◌%◌, ◌≡◌, none, true, refl}
use ida_multi_mcp.Lock.{
  State, start, enter, try_os, Reach, begin, later, enters, tries, outside, polling, holding,
}
use ida_multi_mcp.Lock.Exclusion.{is_inside, Reach-Excluded}

abbrev process : ℕ → ℕ
process t = t % 2

abbrev contended : State
contended = try_os process 1 (enter process 1 (try_os process 0 (enter process 0 start)))

contended-Reach : Reach process contended
unfolding enter try_os
contended-Reach =
    later (later (later (later begin (enters 0 refl)) (tries 0 refl)) (enters 1 refl))
      (tries 1 refl)

thread_1-waits : contended.at 1 ≡ polling
unfolding enter try_os
thread_1-waits = refl

thread_0-holds : contended.at 0 ≡ holding
unfolding enter try_os
thread_0-holds = refl

Reach-Excluded_example :
    ((t u : ℕ) → contended.at t ≡ holding → contended.at u ≡ holding → t ≡ u)
    × ((t u : ℕ)
        → process t ≡ process u
        → is_inside (contended.at t) ≡ true
        → is_inside (contended.at u) ≡ true
        → t ≡ u)
    × (((t : ℕ) → contended.at t ≡ outside)
        → (contended.os_lock ≡ none) × ((p : ℕ) → contended.thread_lock p ≡ none))
Reach-Excluded_example = Reach-Excluded process contended-Reach
