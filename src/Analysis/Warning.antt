-- ===== src/Analysis/Warning.antt =====
-- When `_analysis_incomplete` of src/ida_multi_mcp/server.py answers that analysis goes on.
use mathlib.Core.Path.{subst}
use ida_multi_mcp.Prelude.{
  ℕ, ◌+◌, ◌<◌, ◌≡◌, refl, ◌∙◌, sym, Bool, true, false, not, ◌&&◌, ◌||◌, List, [], ◌∷◌, Option, none,
  some, Text, text_eq, text_eq_iff, text_eq_refl, Dict, lookup, insert, ltb, ◌==◌, if◌then◌else◌,
  arith, lookup-insert, Bool-cases, if-cases, inl, inr,
}
use ida_multi_mcp.Analysis.{Call, ask, analysis_incomplete, states_after, state_ttl}

abbrev same_bool : Bool → Bool → Bool
same_bool true b = b
same_bool false b = not b

-- Whether this call asks about `id` at time `t`, and the instance reports that it is not finished, or
-- that it is, as `incomplete` says.
abbrev pub reports : Text → ℕ → Bool → Call → Bool
reports id t incomplete call =
    call.now == t
    && (elim call.instance_id [ none ↦ false | some i ↦ text_eq i id ]
        && elim call.finished [ none ↦ false | some f ↦ same_bool incomplete (not f) ])

abbrev pub reported : Text → ℕ → Bool → List Call → Bool
reported id t incomplete [] = false
reported id t incomplete (call ∷ earlier) =
    reports id t incomplete call || reported id t incomplete earlier

-- What the states know was reported.
abbrev Known : List Call → Dict (Bool × ℕ) → Type 0
Known calls states =
    (id : Text) (b : Bool) (t : ℕ) → lookup id states ≡ some (b, t) → reported id t b calls ≡ true

-- What an answer rests on.
abbrev Grounded : Call → List Call → Dict (Bool × ℕ) × Bool → Type 0
Grounded call earlier (states, answer) =
    Known (call ∷ earlier) states
    × (answer ≡ true
        → (id : Text) × (t : ℕ) × (call.instance_id ≡ some id)
          × (reported id t true (call ∷ earlier) ≡ true)
          × (call.now < t + state_ttl))

-- `reports`, of an entry of the states
abbrev stated : Call → List Call → Text → Option (Bool × ℕ) → Bool
stated call earlier id none = true
stated call earlier id (some (b, t)) = reports id t b call || reported id t b earlier

module _ (call : Call) (earlier : List Call) (states : Dict (Bool × ℕ))
    (known : Known earlier states) where
  older : Known (call ∷ earlier) states
  older id b t e = let k = known id b t e in ground arith

  ask-reports :
      (id : Text) (finished : Bool)
      → call.instance_id ≡ some id
      → call.finished ≡ some finished
      → reports id call.now (not finished) call ≡ true
  ask-reports id true e f = rw (e, f, text_eq_refl id) (ground arith)
  ask-reports id false e f = rw (e, f, text_eq_refl id) (ground arith)

  insert-Known :
      (id : Text) (finished : Bool)
      → call.instance_id ≡ some id
      → call.finished ≡ some finished
      → Known (call ∷ earlier) (insert id (not finished, call.now) states)
  insert-Known id finished e f j b t found =
      let now = ask-reports id finished e f in
      let l = lookup-insert id j (not finished, call.now) states in
      elim (Bool-cases (text_eq id j)) [
        | inl q ↦
            let same : some (not finished, call.now) ≡ some (b, t) = sym (l ∙ rw q refl) ∙ found in
            let i = (text_eq_iff id j).0 q in
            let moved = subst (λ k. reports k call.now (not finished) call ≡ true) i now in
            subst (λ (o : Option (Bool × ℕ)). stated call earlier j o ≡ true) same (ground arith)
        | inr q ↦ older j b t (sym (l ∙ rw q refl) ∙ found)
      ]

  ask-Grounded :
      (id : Text) (o : Option Bool)
      → call.instance_id ≡ some id
      → call.finished ≡ o
      → Grounded call earlier (ask states call.now id o)
  unfolding ask
  ask-Grounded id none e f = (older, λ h. absurd (cc))
  ask-Grounded id (some finished) e f = (
    insert-Known id finished e f,
    λ h.
        let now = ask-reports id finished e f in
        let now' = subst (λ b. reports id call.now b call ≡ true) h now in
        (id, call.now, e, ground arith, omega arith),
  )

  -- The same of an answer from the states.
  cached-Grounded :
      (id : Text) (b : Bool) (t : ℕ)
      → call.instance_id ≡ some id
      → lookup id states ≡ some (b, t)
      → call.now < t + state_ttl
      → Grounded call earlier (states, b)
  cached-Grounded id b t e found young =
      (older, λ h. (id, t, e, older id true t (rw (sym h) found), young))

  kept-Grounded : Grounded call earlier (states, false)
  kept-Grounded = (older, λ h. absurd (cc))

  looked_up-Grounded :
      (id : Text) (o : Option (Bool × ℕ))
      → call.instance_id ≡ some id
      → lookup id states ≡ o
      → Grounded call earlier (elim o [
        | none ↦ ask states call.now id call.finished
        | some (incomplete, at) ↦
            if ltb call.now (at + state_ttl)
            then (states, incomplete)
            else ask states call.now id call.finished
      ])
  looked_up-Grounded id none e f = ask-Grounded id call.finished e refl
  looked_up-Grounded id (some (b, t)) e f =
      if-cases (Grounded call earlier) (ltb call.now (t + state_ttl))
        (λ young. cached-Grounded id b t e f (ground arith))
        (λ old. ask-Grounded id call.finished e refl)

  id-Grounded :
      (i : Option Text)
      → call.instance_id ≡ i
      → Grounded call earlier (analysis_incomplete states (record call { instance_id = i }))
  unfolding analysis_incomplete
  id-Grounded none e = kept-Grounded
  id-Grounded (some []) e = kept-Grounded
  id-Grounded (some (c ∷ cs)) e = looked_up-Grounded (c ∷ cs) (lookup (c ∷ cs) states) e refl

states_after-Known : (calls : List Call) → Known calls (states_after calls)
unfolding states_after lookup
states_after-Known [] = λ id b t e. absurd (cc)
states_after-Known (call ∷ earlier) =
    (id-Grounded call earlier (states_after earlier) (states_after-Known earlier) call.instance_id
      refl).0

-- After any calls, an answer that an instance still analyses rests on a report of this instance, now
-- or less than ten seconds before, that it had not finished.
pub analysis_incomplete-reported :
    (call : Call) (earlier : List Call)
    → (analysis_incomplete (states_after earlier) call).1 ≡ true
    → (id : Text) × (t : ℕ) × (call.instance_id ≡ some id)
      × (reported id t true (call ∷ earlier) ≡ true)
      × (call.now < t + state_ttl)
analysis_incomplete-reported call earlier =
    (id-Grounded call earlier (states_after earlier) (states_after-Known earlier) call.instance_id
      refl).1
