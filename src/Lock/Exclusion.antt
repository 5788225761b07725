-- ===== src/Lock/Exclusion.antt =====
-- The locks of src/ida_multi_mcp/filelock.py in every reachable state.
use ida_multi_mcp.Prelude.{
  if-cases, ap, ℕ, ◌≡◌, refl, inl, inr, Bool, true, false, Option, none, some, ◌==◌, ==_iff,
  Bool-cases, arith,
}
use ida_multi_mcp.Lock.{
  Point, outside, polling, holding, leaving, State, update, start, is_free, enter, try_os, give_up,
  unlock_os, unlock_thread, Step, enters, tries, gives_up, unlocks_os, unlocks_thread, Reach, begin,
  later,
}

abbrev pub is_inside : Point → Bool
is_inside outside = false
is_inside polling = true
is_inside holding = true
is_inside leaving = true

abbrev pub is_holding : Point → Bool
is_holding holding = true
is_holding _ = false

-- Whether a lock is taken by this thread.
abbrev pub has : Option ℕ → ℕ → Bool
has none t = false
has (some u) t = u == t

has-same : (o : Option ℕ) (t u : ℕ) → has o t ≡ true → has o u ≡ true → t ≡ u
has-same none t u h k = absurd (ground arith)
has-same (some v) t u h k = ground arith

has-one : (o : Option ℕ) (t u : ℕ) → has o t ≡ true → (t == u) ≡ false → has o u ≡ false
has-one none t u h k = refl
has-one (some v) t u h k = ground arith

has-none : (o : Option ℕ) → ((t : ℕ) → has o t ≡ false) → o ≡ none
has-none none h = refl
has-none (some v) h = let k = h v in absurd (ground arith)

module _ (process : ℕ → ℕ) where
  -- Exactly the threads inside have the lock of their process, and exactly the one that holds has
  -- the lock of the operating system; a thread has the lock of its own process only.
  pub record Consistent (s : State) : Type 0 where
    pub inside : (t : ℕ) → has (s.thread_lock (process t)) t ≡ is_inside (s.at t)
    pub holds : (t : ℕ) → has s.os_lock t ≡ is_holding (s.at t)
    pub own : (p t : ℕ) → has (s.thread_lock p) t ≡ true → process t ≡ p

  start-Consistent : Consistent start
  start-Consistent = record {
    inside = λ t. refl;
    holds = λ t. refl;
    own = λ p t e. absurd (ground arith);
  }

  enter-Consistent :
      (t : ℕ) (s : State) → s.at t ≡ outside → Consistent s → Consistent (enter process t s)
  unfolding enter
  enter-Consistent t s o c =
      if-cases Consistent (is_free (s.thread_lock (process t)))
        (λ free. record {
          inside = λ u.
              let i = c.inside u in
              let j = c.inside t in
              let k = ==_iff (process t) (process u) in
              let l = ==_iff t u in
              elim (Bool-cases (process t == process u)) [
                | inl e ↦ let same = ap s.thread_lock (k.0 e) in ground arith
                | inr e ↦ ground arith
              ];
          holds = λ u. let i = c.holds u in let l = ==_iff t u in let j = c.holds t in ground arith;
          own = λ p u h.
              let i = c.own p u in
              let k = ==_iff (process t) p in let l = ==_iff t u in ground arith;
        })
        (λ taken. c)

  try_os-Consistent :
      (t : ℕ) (s : State) → s.at t ≡ polling → Consistent s → Consistent (try_os process t s)
  unfolding try_os
  try_os-Consistent t s o c =
      if-cases Consistent (is_free s.os_lock)
        (λ free. record {
          inside = λ u.
              let i = c.inside u in
              let l = ==_iff t u in
              let j = c.inside t in
              elim (Bool-cases (t == u)) [
                | inl e ↦ let same = ap s.at (l.0 e) in ground arith
                | inr e ↦ ground arith
              ];
          holds = λ u. let i = c.holds u in let l = ==_iff t u in ground arith;
          own = c.own;
        })
        (λ taken. c)

  -- A thread that leaves releases the lock of its process, whatever happened.
  leave-Consistent :
      (t : ℕ) (s : State)
      → is_inside (s.at t) ≡ true
      → is_holding (s.at t) ≡ false
      → Consistent s
      → Consistent (record s {
        at = update s.at t outside;
        thread_lock = update s.thread_lock (process t) none;
      })
  leave-Consistent t s o n c = record {
    inside = λ u.
        let i = c.inside u in
        let j = c.inside t in
        let k = ==_iff (process t) (process u) in
        let l = ==_iff t u in
        elim (Bool-cases (process t == process u)) [
          | inl e ↦
              let same = ap s.thread_lock (k.0 e) in
              elim (Bool-cases (t == u)) [
                | inl q ↦ ground arith
                | inr q ↦ let only = has-one (s.thread_lock (process u)) t u in ground arith
              ]
          | inr e ↦ elim (Bool-cases (t == u)) [
            | inl q ↦ let same = ap process (l.0 q) in ground arith
            | inr q ↦ ground arith
          ]
        ];
    holds = λ u.
        let i = c.holds u in
        let l = ==_iff t u in
        elim (Bool-cases (t == u)) [
          | inl e ↦ let same = ap s.at (l.0 e) in ground arith
          | inr e ↦ ground arith
        ];
    own = λ p u h. let i = c.own p u in let k = ==_iff (process t) p in ground arith;
  }

  unlock_os-Consistent :
      (t : ℕ) (s : State) → s.at t ≡ holding → Consistent s → Consistent (unlock_os process t s)
  unfolding unlock_os
  unlock_os-Consistent t s o c = record {
    inside = λ u.
        let i = c.inside u in
        let l = ==_iff t u in
        elim (Bool-cases (t == u)) [
          | inl e ↦ let same = ap s.at (l.0 e) in ground arith
          | inr e ↦ ground arith
        ];
    holds = λ u.
        let i = c.holds u in
        let j = c.holds t in let l = ==_iff t u in let only = has-one s.os_lock t u in ground arith;
    own = c.own;
  }

  Step-Consistent : {s u : State} → Step process s u → Consistent s → Consistent u
  unfolding give_up unlock_thread
  Step-Consistent {s} (enters t o) c = enter-Consistent t s o c
  Step-Consistent {s} (tries t o) c = try_os-Consistent t s o c
  Step-Consistent {s} (gives_up t o) c = leave-Consistent t s (ground arith) (ground arith) c
  Step-Consistent {s} (unlocks_os t o) c = unlock_os-Consistent t s o c
  Step-Consistent {s} (unlocks_thread t o) c = leave-Consistent t s (ground arith) (ground arith) c

  Reach-Consistent : {s : State} → Reach process s → Consistent s
  Reach-Consistent begin = start-Consistent
  Reach-Consistent (later r st) = Step-Consistent st (Reach-Consistent r)

  -- In every state that the threads can reach, at most one of them, of whatever process, holds the
  -- file lock, at most one of each process is inside, and when all are outside, whether they
  -- succeeded or gave up, no lock is left taken that a thread could have.
  pub Reach-Excluded :
      {s : State}
      → Reach process s
      → ((t u : ℕ) → s.at t ≡ holding → s.at u ≡ holding → t ≡ u)
        × ((t u : ℕ)
            → process t ≡ process u
            → is_inside (s.at t) ≡ true
            → is_inside (s.at u) ≡ true
            → t ≡ u)
        × (((t : ℕ) → s.at t ≡ outside) → (s.os_lock ≡ none) × ((p : ℕ) → s.thread_lock p ≡ none))
  Reach-Excluded {s} r =
      let c = Reach-Consistent r in
      (
        λ t u a b.
            let i = c.holds t in
            let j = c.holds u in has-same s.os_lock t u (ground arith) (ground arith),
        λ t u e a b.
            let i = c.inside t in
            let j = c.inside u in
            let same = ap s.thread_lock e in
            has-same (s.thread_lock (process u)) t u (ground arith) (ground arith),
        λ all. (
          has-none s.os_lock (λ t. let i = c.holds t in let o = all t in ground arith),
          λ p. has-none (s.thread_lock p) λ t.
              let i = c.inside t in
              let o = all t in
              let k = c.own p t in
              elim (Bool-cases (has (s.thread_lock p) t)) [
                | inl h ↦ let same = ap s.thread_lock (k h) in ground arith
                | inr h ↦ h
              ],
        ),
      )
