-- ===== src/Aggregator/Single.antt =====
-- Calls of src/ida_multi_mcp/http_aggregator.py by several processes, one after another under the
-- lock.
use mathlib.Core.Path.{subst}
use ida_multi_mcp.Prelude.{
  ℕ, ◌+◌, ◌≤◌, ◌≡◌, refl, inl, inr, Bool, true, false, ◌&&◌, ◌||◌, List, [], ◌∷◌, Option, none,
  some, Text, if◌then◌else◌, Bool-cases, arith,
}
use ida_multi_mcp.Aggregator.{Environment, Seen, EnsureResult, spawn_locked, ensure_http_aggregator}
use ida_multi_mcp.Aggregator.Answers.{success}

-- A call reports success.
abbrev pub is_success : Option EnsureResult → Bool
is_success none = false
is_success (some r) = success r.action

-- A call, and whether something listens on the port when it takes the lock and when it leaves it.
pub record Turn : Type 0 where
  pub seen : Seen
  pub fuel : ℕ
  pub before : Bool
  pub after : Bool

module _ (env : Environment) (lan : Option Text) (host : Text) (port : ℕ) (enabled : Bool) where
  abbrev pub call : Turn → Bool × Option EnsureResult
  call t = ensure_http_aggregator env lan host port enabled t.seen t.fuel

  -- A call starts a child only if it is not switched off, neither probe found a listener, and it
  -- has the lock.
  pub ensure_http_aggregator-spawns :
      (s : Seen) (fuel : ℕ)
      → (ensure_http_aggregator env lan host port enabled s fuel).0 ≡ true
      → (enabled ≡ true)
        × (s.listening ≡ false)
        × (s.lock_error ≡ none)
        × (s.listening_locked ≡ false)
        × (s.log_error ≡ none)
        × (s.popen_error ≡ none)
  unfolding ensure_http_aggregator spawn_locked
  ensure_http_aggregator-spawns s fuel h = ground arith

  abbrev pub starts : Turn → Bool
  starts t = (call t).0

  abbrev pub succeeds : Turn → Bool
  succeeds t = is_success (call t).1

  -- How many of the calls start a child.
  abbrev pub started : List Turn → ℕ
  started [] = 0
  started (t ∷ ts) = (if starts t then 1 else 0) + started ts

  -- How many of the calls start a child and report success.
  abbrev pub launched : List Turn → ℕ
  launched [] = 0
  launched (t ∷ ts) = (if starts t && succeeds t then 1 else 0) + launched ts

  -- What the calls see is true of the port: the probe under the lock finds what listens then, a call
  -- reports success only when something listens, and what listens stays. A child may come to listen
  -- at any time: during its own call, or later.
  abbrev pub Observed : Bool → List Turn → Type 0
  Observed up [] = Unit {0}
  Observed up (t ∷ ts) =
      (up ≡ true → t.before ≡ true)
      × (t.seen.listening_locked ≡ t.before)
      × (t.before ≡ true → t.after ≡ true)
      × (succeeds t ≡ true → t.after ≡ true)
      × Observed t.after ts

  -- How many of the calls start a child when something listens already (`up`), or listened at the
  -- end of an earlier call.
  abbrev pub started_late : Bool → List Turn → ℕ
  started_late up [] = 0
  started_late up (t ∷ ts) = (if up && starts t then 1 else 0) + started_late (up || t.after) ts

  up-starts : (t : Turn) (ts : List Turn) → Observed true (t ∷ ts) → starts t ≡ false
  up-starts t ts h = elim (Bool-cases (starts t)) [
    | inl e ↦ let p = ensure_http_aggregator-spawns t.seen t.fuel e in absurd (ground arith)
    | inr e ↦ e
  ]

  up-started : (ts : List Turn) → Observed true ts → started ts ≡ 0
  up-started [] h = refl
  up-started (t ∷ ts) h =
      let q = up-started ts (subst (λ u. Observed u ts) (h.2 (h.0 refl)) h.4) in
      let e = up-starts t ts h in ground arith

  Observed-started_late : (up : Bool) (ts : List Turn) → Observed up ts → started_late up ts ≡ 0
  Observed-started_late up [] h = refl
  Observed-started_late false (t ∷ ts) h =
      let q = Observed-started_late t.after ts h.4 in ground arith
  Observed-started_late true (t ∷ ts) h =
      let q = Observed-started_late true ts (subst (λ u. Observed u ts) (h.2 (h.0 refl)) h.4) in
      let e = up-starts t ts h in ground arith

  launched-started : (ts : List Turn) → launched ts ≤ started ts
  launched-started [] = omega arith
  launched-started (t ∷ ts) = let q = launched-started ts in ground arith

  launched-le : (up : Bool) (ts : List Turn) → Observed up ts → launched ts ≤ 1
  launched-le up [] h = omega arith
  launched-le up (t ∷ ts) h = elim (Bool-cases (succeeds t)) [
    | inl e ↦
        let q = up-started ts (subst (λ u. Observed u ts) (h.3 e) h.4) in
        let r = launched-started ts in ground arith
    | inr e ↦ let q = launched-le t.after ts h.4 in ground arith
  ]

  -- Of any number of calls, taken in the order in which they hold the lock, whatever their first
  -- probes saw: once something listens on the port, at the start or at the end of a call, whether or
  -- not it was reported, no later call starts a child; and at most one call both starts a child and
  -- reports success. Supposed is that the probe under the lock and a reported success are true of
  -- the port, and that what listens stays. Children that never come to listen are not bounded.
  pub turns-started_late :
      (up : Bool) (turns : List Turn)
      → Observed up turns
      → (started_late up turns ≡ 0) × (launched turns ≤ 1)
  turns-started_late up turns h = (Observed-started_late up turns h, launched-le up turns h)
