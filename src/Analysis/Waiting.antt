-- ===== src/Analysis/Waiting.antt =====
-- How `analysis_wait` of src/ida_multi_mcp/tools/management.py ends.
use mathlib.Core.Path.{subst}
use ida_multi_mcp.Prelude.{
  ℕ, suc, length-append, ◌+◌, ◌-◌, ◌≤◌, ◌<◌, min, ◌≡◌, ◌⊎◌, refl, Bool, true, false, not, ◌&&◌,
  List, [], ◌∷◌, ◌++◌, Option, some, take, ap, ◌∙◌, sym, ℤ, Text, length, ltb, ◌==◌, arith,
  if-cases, inl, inr,
}
use ida_multi_mcp.Analysis.{
  Status, Probe, Round, Ended, latest, wait_loop, step_max, wait_max, budget, status, nothing,
  failed, Waited, waited, waited_from, analysis_wait,
}

-- The statuses that a round reports: that of the driven step, or else that of the poll.
abbrev pub reports : Round → List Status
reports r = elim r.stepped [ status s ↦ s ∷ [] | _ ↦ elim r.polled [ status s ↦ s ∷ [] | _ ↦ [] ] ]

-- Those of the rounds, in order.
abbrev pub all_reports : List Round → List Status
all_reports [] = []
all_reports (r ∷ rs) = reports r ++ all_reports rs

-- The latest of a first status and those that follow.
abbrev pub last_of : Status → List Status → Status
last_of s [] = s
last_of s (t ∷ ts) = last_of t ts

last_of-append : (s : Status) (l k : List Status) → last_of s (l ++ k) ≡ last_of (last_of s l) k
last_of-append s [] k = refl
last_of-append s (t ∷ l) k = last_of-append t l k

latest-reports : (r : Round) (s : Status) → latest r s ≡ last_of s (reports r)
latest-reports r s = by_probes r.stepped r.polled
  where
    by_probes :
        (p q : Probe)
        → (elim p [ status t ↦ t | _ ↦ elim q [ status t ↦ t | _ ↦ s ] ])
          ≡ last_of s (elim p [ status t ↦ t ∷ [] | _ ↦ elim q [ status t ↦ t ∷ [] | _ ↦ [] ] ])
    by_probes (status t) q = refl
    by_probes nothing (status t) = refl
    by_probes nothing nothing = refl
    by_probes nothing (failed e) = refl
    by_probes (failed e) (status t) = refl
    by_probes (failed e) nothing = refl
    by_probes (failed e) (failed f) = refl

-- The clock goes on, from `t` on; a round begins by `limit`, and the next one when the slice that was
-- asked for is over, or by `lag` later. The pause after a failed step is not longer than the slice.
abbrev pub Ticks : ℕ → ℕ → ℕ → ℕ → List Round → Type 0
Ticks deadline lag t limit [] = Unit {0}
Ticks deadline lag t limit (r ∷ rs) =
    (t < r.now)
    × (r.now ≤ limit)
    × (r.now ≤ r.now_slice)
    × (r.now_slice ≤ r.now + lag)
    × Ticks deadline lag r.now_slice (r.now_slice + min step_max (deadline - r.now_slice) + lag) rs

-- Slices that hold IDA's main thread five seconds at most, and never behind the deadline.
abbrev pub Fit : ℕ → List (ℕ × ℕ) → Type 0
Fit deadline [] = Unit {0}
Fit deadline ((at, slice) ∷ rest) =
    ((0 < slice) × (slice ≤ step_max) × (at + slice ≤ deadline)) × Fit deadline rest

Fit-append :
    (deadline at slice : ℕ) (l : List (ℕ × ℕ))
    → Fit deadline l
    → (0 < slice) × (slice ≤ step_max) × (at + slice ≤ deadline)
    → Fit deadline (l ++ (at, slice) ∷ [])
Fit-append deadline at slice [] f h = (h, tt)
Fit-append deadline at slice ((a, s) ∷ l) f h = (f.0, Fit-append deadline at slice l f.1 h)

-- How the loop ends, begun with `last` after `driven` slices: the last status is the latest reported
-- in the rounds that were driven, and either it is finished or the time is over; the clock is `lag`
-- behind the deadline at most.
abbrev pub EndsBy : ℕ → ℕ → Status → ℕ → List Round → Option Ended → Type 0
EndsBy deadline lag last driven rounds o =
    (e : Ended) × (n : ℕ) × (o ≡ some e)
    × (length e.slices ≡ driven + n)
    × (e.last ≡ last_of last (all_reports (take n rounds)))
    × ((e.last.finished ≡ true) ⊎ (deadline ≤ e.clock))
    × (e.clock ≤ deadline + lag)
    × Fit deadline e.slices

stopped :
    (finished : Bool) (now deadline : ℕ)
    → (not finished && ltb now deadline) ≡ false
    → (finished ≡ true) ⊎ (deadline ≤ now)
stopped true now deadline h = inl refl
stopped false now deadline h = inr (ground arith)

-- A round more in front.
EndsBy-cons :
    (deadline lag : ℕ) (last : Status) (driven : ℕ) (r : Round) (rs : List Round) (o : Option Ended)
    → EndsBy deadline lag (latest r last) (suc driven) rs o
    → EndsBy deadline lag last driven (r ∷ rs) o
EndsBy-cons deadline lag last driven r rs o (e, n, found, count, newest, why, late, fit) = (
  e,
  suc n,
  found,
  omega (arith, count),
  newest
      ∙ ap (λ s. last_of s (all_reports (take n rs))) (latest-reports r last)
      ∙ sym (last_of-append last (reports r) (all_reports (take n rs))),
  why,
  late,
  fit,
)

wait_loop-EndsBy :
    (deadline lag : ℕ) (last : Status) (slices : List (ℕ × ℕ)) (t limit : ℕ) (rounds : List Round)
    → Ticks deadline lag t limit rounds
    → limit ≤ deadline + lag
    → deadline < t + length rounds
    → Fit deadline slices
    → 0 < length rounds
    → EndsBy deadline lag last (length slices) rounds (wait_loop deadline last slices rounds)
unfolding wait_loop
wait_loop-EndsBy deadline lag last slices t limit [] ticks up enough fit some_left =
    absurd (omega arith)
wait_loop-EndsBy deadline lag last slices t limit (r ∷ rs) ticks up enough fit some_left =
    let slice = min step_max (deadline - r.now_slice) in
    let (later, by, on, soon, ticks') = ticks in
    let P = EndsBy deadline lag last (length slices) (r ∷ rs) in
    if-cases P (not last.finished && ltb r.now deadline)
      (λ go.
        if-cases P (slice == 0)
          (λ over. (_, 0, refl, omega arith, refl, inr (ground arith), ground arith, fit))
          (λ left.
            let room : (0 < slice) × (slice ≤ step_max) × (r.now_slice + slice ≤ deadline) =
              (ground arith, ground arith, ground arith) in
            let fit' = Fit-append deadline r.now_slice slice slices fit room in
            let driven = slices ++ (r.now_slice, slice) ∷ [] in
            let ih =
              wait_loop-EndsBy deadline lag (latest r last) driven r.now_slice
                (r.now_slice + slice + lag) rs ticks' (ground arith) (ground arith) fit'
                (ground arith) in
            let count : length driven ≡ suc (length slices) =
              omega (arith, length-append slices ((r.now_slice, slice) ∷ [])) in
            EndsBy-cons deadline lag last (length slices) r rs _ (
              subst
                (λ k.
                  EndsBy deadline lag (latest r last) k rs
                    (wait_loop deadline (latest r last) driven rs))
                count ih)))
      (λ stop. (
        _,
        0,
        refl,
        omega arith,
        refl,
        stopped last.finished r.now deadline stop,
        omega (arith, by, up),
        fit,
      ))

-- Suppose that the instance reports a status at first, that the clock goes on, and that nothing takes
-- more than `lag` beyond the slice that is asked for. Then a wait ends within one round more than its
-- budget has milliseconds, which is ten minutes at most, and no later than `lag` after the budget;
-- the status that it answers with is the latest that the instance reported in the rounds in which it
-- was driven, and is finished unless the budget is used up; and IDA is never driven for more than
-- five seconds at a time or behind the deadline.
pub analysis_wait-EndsBy :
    (c : ℕ) (cs : Text) (requested : Option ℤ) (t0 lag : ℕ) (first : Status) (rounds : List Round)
    → Ticks (t0 + budget requested) lag t0 (t0 + lag) rounds
    → budget requested < length rounds
    → let deadline = t0 + budget requested in
      (w : Waited) × (analysis_wait (some (c ∷ cs)) requested t0 (status first) rounds
        ≡ some (waited w))
      × (w.ended.last ≡ last_of first (all_reports (take (length w.ended.slices) rounds)))
      × (w.finished ≡ w.ended.last.finished)
      × ((w.finished ≡ true) ⊎ (deadline ≤ w.ended.clock))
      × (w.ended.clock ≤ deadline + lag)
      × Fit deadline w.ended.slices
      × (budget requested ≤ wait_max)
unfolding analysis_wait
analysis_wait-EndsBy c cs requested t0 lag first rounds ticks enough =
    let (e, n, ends, count, newest, why, late, fit) =
      wait_loop-EndsBy (t0 + budget requested) lag first [] t0 (t0 + lag) rounds ticks (omega arith)
        (omega (arith, enough)) tt (omega (arith, enough)) in
    let k : length e.slices ≡ n = omega (arith, count) in
    (
      waited_from first e,
      rw (ends, analysis_wait) refl,
      rw k newest,
      refl,
      why,
      late,
      fit,
      omega arith,
    )
