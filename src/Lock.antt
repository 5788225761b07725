-- ===== src/Lock.antt =====
-- src/ida_multi_mcp/filelock.py: one lock file under threads of several processes. Each thread that
-- uses a `FileLock` on the file stands at a point of its code; the `threading.Lock` of the path is
-- one for each process, and the operating system's lock is one for all. `flock` excludes whoever
-- holds it, and its release is supposed not to fail. On Windows the steps are the same.
mod Exclusion
mod Tests
use ida_multi_mcp.Prelude.{ℕ, Bool, true, false, Option, none, some, ◌==◌, ◌≡◌, if◌then◌else◌}

-- Where a thread stands: outside; in `_acquire_unix`, with the lock of its process; holding both;
-- between the two releases of `release`.
pub data Point : Type 0 where
  outside polling holding leaving : Point

pub record State : Type 0 where
  pub at : ℕ → Point
  -- `_thread_lock` of each process, with the thread that has it
  pub thread_lock : ℕ → Option ℕ
  -- the lock of the operating system
  pub os_lock : Option ℕ

-- `f` with another value at `k`
abbrev pub update {ℓ} : {A : Type ℓ} → (ℕ → A) → ℕ → A → ℕ → A
update f k v j = if k == j then v else f j

abbrev pub start : State
start = record { at = λ t. outside; thread_lock = λ p. none; os_lock = none }

abbrev pub is_free : Option ℕ → Bool
is_free none = true
is_free (some t) = false

module _ (process : ℕ → ℕ) where
  -- `self._thread_lock.acquire(timeout=...)`: whether it is free in time; if not, `FileLockTimeout`.
  unfoldable pub enter : ℕ → State → State
  enter t s =
      if is_free (s.thread_lock (process t))
      then record s {
        at = update s.at t polling;
        thread_lock = update s.thread_lock (process t) (some t);
      }
      else s

  -- `flock`, where it succeeds; where it does not, another round or `give_up`.
  unfoldable pub try_os : ℕ → State → State
  try_os t s =
      if is_free s.os_lock then record s { at = update s.at t holding; os_lock = some t } else s

  -- The `except` of `acquire`: after an error of `makedirs` or `open`, or the deadline of
  -- `_acquire_unix`, the lock of the process is released.
  unfoldable pub give_up : ℕ → State → State
  give_up t s = record s {
    at = update s.at t outside;
    thread_lock = update s.thread_lock (process t) none;
  }

  -- `release`: first the lock of the operating system, then that of the process.
  unfoldable pub unlock_os : ℕ → State → State
  unlock_os t s = record s { at = update s.at t leaving; os_lock = none }

  unfoldable pub unlock_thread : ℕ → State → State
  unlock_thread t s = record s {
    at = update s.at t outside;
    thread_lock = update s.thread_lock (process t) none;
  }

  -- A thread makes the next step of its code; the others stand still.
  pub data Step (s : State) : State → Type 0 where
    enters : (t : ℕ) → s.at t ≡ outside → Step s (enter t s)
    tries : (t : ℕ) → s.at t ≡ polling → Step s (try_os t s)
    gives_up : (t : ℕ) → s.at t ≡ polling → Step s (give_up t s)
    unlocks_os : (t : ℕ) → s.at t ≡ holding → Step s (unlock_os t s)
    unlocks_thread : (t : ℕ) → s.at t ≡ leaving → Step s (unlock_thread t s)

  pub data Reach : State → Type 0 where
    begin : Reach start
    later : {s u : State} → Reach s → Step s u → Reach u
