-- ===== src/Analysis/Tests.antt =====
-- An analysis that finishes in the third round of a wait, and warnings about another one.
use ida_multi_mcp.Prelude.{
  take, length, ℕ, ◌+◌, ◌≤◌, ◌<◌, ◌≡◌, ◌⊎◌, refl, true, false, List, [], ◌∷◌, none, some, pos, Text,
  text, text_eq, lookup, insert, arith,
}
use ida_multi_mcp.Analysis.{
  Call, ask, analysis_incomplete, states_after, state_ttl, Status, nothing, status, Round, Waited,
  waited, analysis_wait, budget, wait_max,
}
use ida_multi_mcp.Analysis.Warning.{reported, analysis_incomplete-reported}
use ida_multi_mcp.Analysis.Waiting.{Fit, all_reports, last_of, analysis_wait-EndsBy}

abbrev running : Status
running = record { finished = false; function_count = some 10; state = none }

abbrev settled : Status
settled = record { finished = true; function_count = some 12; state = none }

-- A budget of two milliseconds, and three rounds.
abbrev rounds : List Round
rounds =
    record { now = 101; now_slice = 101; stepped = status running; polled = nothing }
    ∷ record { now = 102; now_slice = 102; stepped = nothing; polled = status settled }
    ∷ record { now = 103; now_slice = 104; stepped = nothing; polled = nothing }
    ∷ []

analysis_wait-EndsBy_example :
    (w : Waited) × (analysis_wait (some (97 ∷ [])) (some (pos 2)) 100 (status running) rounds
      ≡ some (waited w))
    × (w.ended.last ≡ last_of running (all_reports (take (length w.ended.slices) rounds)))
    × (w.finished ≡ w.ended.last.finished)
    × ((w.finished ≡ true) ⊎ (100 + budget (some (pos 2)) ≤ w.ended.clock))
    × (w.ended.clock ≤ 100 + budget (some (pos 2)) + 3)
    × Fit (100 + budget (some (pos 2))) w.ended.slices
    × (budget (some (pos 2)) ≤ wait_max)
analysis_wait-EndsBy_example =
    analysis_wait-EndsBy 97 [] (some (pos 2)) 100 3 running rounds (omega arith) (omega arith)

-- The instance is asked at 5, and its answer is used again at 700.
abbrev asked : Call
asked = record { now = 5; instance_id = some (text "aaaa"); finished = some false }

abbrev repeated : Call
repeated = record { now = 700; instance_id = some (text "aaaa"); finished = none }

repeated-incomplete : (analysis_incomplete (states_after (asked ∷ [])) repeated).1 ≡ true
unfolding analysis_incomplete states_after ask lookup insert text_eq
repeated-incomplete = refl

analysis_incomplete-reported_example :
    (id : Text) × (t : ℕ) × (repeated.instance_id ≡ some id)
    × (reported id t true (repeated ∷ asked ∷ []) ≡ true)
    × (repeated.now < t + state_ttl)
analysis_incomplete-reported_example =
    analysis_incomplete-reported repeated (asked ∷ []) repeated-incomplete
