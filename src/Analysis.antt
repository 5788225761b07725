-- ===== src/Analysis.antt =====
-- The state of IDA's analysis: `_analysis_incomplete` of src/ida_multi_mcp/server.py, which remembers
-- an instance's answer for some time, and `analysis_wait` of src/ida_multi_mcp/tools/management.py.
-- What the router returns and what the clock shows, in milliseconds, are arguments. Calls of
-- `_analysis_incomplete` come one after another.
mod Warning
mod Waiting
mod Tests
use ida_multi_mcp.Prelude.{
  ℕ, zero, suc, ◌+◌, ◌-◌, min, Bool, true, false, not, ◌&&◌, ◌||◌, List, [], ◌∷◌, ◌++◌, Option,
  none, some, ℤ, pos, clip, Text, text, text_eq, Dict, lookup, insert, ltb, leb, ◌==◌, or_default,
  if◌then◌else◌,
}

-- `_ANALYSIS_STATE_TTL_SEC`
abbrev pub state_ttl : ℕ
state_ttl = 10000

-- A call at time `now`; `finished` is what the instance reports, if it is asked and answers.
pub record Call : Type 0 where
  pub now : ℕ
  pub instance_id : Option Text
  pub finished : Option Bool

-- What follows where no young entry is found.
unfoldable pub ask : Dict (Bool × ℕ) → ℕ → Text → Option Bool → Dict (Bool × ℕ) × Bool
unfolding insert
ask states now id none = (states, false)
ask states now id (some finished) = (insert id (not finished, now) states, not finished)

-- `_analysis_incomplete`, over `_analysis_state_cache`
unfoldable pub analysis_incomplete : Dict (Bool × ℕ) → Call → Dict (Bool × ℕ) × Bool
unfolding ask lookup
analysis_incomplete states call = elim call.instance_id [
  | none ↦ (states, false)
  | some [] ↦ (states, false)
  | some (c ∷ cs) ↦ elim (lookup (c ∷ cs) states) [
    | none ↦ ask states call.now (c ∷ cs) call.finished
    | some (incomplete, at) ↦
        if ltb call.now (at + state_ttl)
        then (states, incomplete)
        else ask states call.now (c ∷ cs) call.finished
  ]
]

-- The states after calls, the last one first.
unfoldable pub states_after : List Call → Dict (Bool × ℕ)
unfolding analysis_incomplete
states_after [] = []
states_after (call ∷ earlier) = (analysis_incomplete (states_after earlier) call).0

-- The fields that `analysis_wait` reads of a status.
pub record Status : Type 0 where
  pub finished : Bool
  pub function_count : Option ℕ
  pub state : Option Text

-- What `probe` returns: an empty dict, one with "_error", or a status.
pub data Probe : Type 0 where
  nothing : Probe
  failed : Text → Probe
  status : Status → Probe

-- `ANALYSIS_WAIT_MAX_SEC` and `_ANALYSIS_STEP_SEC`
abbrev pub wait_max : ℕ
wait_max = 600000

abbrev pub step_max : ℕ
step_max = 5000

-- One round of the loop: the clock at its test and where the slice is cut, and the two probes.
pub record Round : Type 0 where
  pub now : ℕ
  pub now_slice : ℕ
  pub stepped : Probe
  pub polled : Probe

-- `last`, after a round
abbrev pub latest : Round → Status → Status
latest r last = elim r.stepped [ status s ↦ s | _ ↦ elim r.polled [ status s ↦ s | _ ↦ last ] ]

-- Where the loop ended: the last status, the clock, and each slice of driving with its start.
pub record Ended : Type 0 where
  pub last : Status
  pub clock : ℕ
  pub slices : List (ℕ × ℕ)

-- The `while` loop; `none` says that it runs on behind the rounds given.
unfoldable pub wait_loop : ℕ → Status → List (ℕ × ℕ) → List Round → Option Ended
wait_loop deadline last slices [] = none
wait_loop deadline last slices (r ∷ rs) =
    let slice = min step_max (deadline - r.now_slice) in
    let rest = wait_loop deadline (latest r last) (slices ++ (r.now_slice, slice) ∷ []) rs in
    if not last.finished && ltb r.now deadline
    then (if slice == 0
        then some (record { last = last; clock = r.now_slice; slices = slices })
        else rest)
    else some (record { last = last; clock = r.now; slices = slices })

-- What `analysis_wait` returns, less its texts; "functions_added" is the difference of the counts.
pub record Waited : Type 0 where
  pub finished : Bool
  pub function_count : ℕ
  pub count_before : ℕ
  pub state : Text
  pub ended : Ended

pub data WaitResult : Type 0 where
  missing_id unreported : WaitResult
  unreachable : Text → WaitResult
  waited : Waited → WaitResult

-- `max(0.0, min(requested, ANALYSIS_WAIT_MAX_SEC))`; what is no number reads as 120 seconds
abbrev pub budget : Option ℤ → ℕ
budget requested = min (clip (or_default requested (pos 120000))) wait_max

abbrev pub waited_from : Status → Ended → Waited
waited_from first e =
    let before = or_default first.function_count 0 in
    record {
      finished = e.last.finished;
      function_count = or_default e.last.function_count before;
      count_before = before;
      state = or_default e.last.state (text "unknown");
      ended = e;
    }

-- `analysis_wait`, begun at `t0`, with the first status and the rounds of the loop
unfoldable pub analysis_wait : Option Text → Option ℤ → ℕ → Probe → List Round → Option WaitResult
unfolding wait_loop
analysis_wait (some (c ∷ cs)) requested t0 (status s) rounds =
    elim (wait_loop (t0 + budget requested) s [] rounds) [
      | none ↦ none
      | some e ↦ some (waited (waited_from s e))
    ]
analysis_wait (some (c ∷ cs)) requested t0 nothing rounds = some unreported
analysis_wait (some (c ∷ cs)) requested t0 (failed e) rounds = some (unreachable e)
analysis_wait _ requested t0 first rounds = some missing_id
