-- ===== src/Prelude/Assoc.antt =====
-- Python's `dict` with text keys, in insertion order; also `OrderedDict`. A list of pairs, each
-- key at most once in a well-formed one.
use Prim.Native.Nat.{ℕ, suc, zero, ◌+◌, ◌≤◌}
use mathlib.Core.Path.{◌≡◌, refl}
use mathlib.Core.Bool.{Bool, true, false}
use mathlib.Core.List.{List, [], ◌∷◌, ◌++◌}
use mathlib.Core.Option.{Option, none, some}
use native.Mathlib.Omega.{arith}
use ida_multi_mcp.Prelude.Tests.{if◌then◌else◌, is_some}
use ida_multi_mcp.Prelude.Lists.{length, drop, keep_if}
use ida_multi_mcp.Prelude.Strings.{Text, text_eq, text_eq_iff, text_eq_refl, text_in}

abbrev pub Dict {ℓ} : Type ℓ → Type ℓ
Dict V = List (Text × V)

module _ {ℓ} {V : Type ℓ} where
  abbrev pub keys : Dict V → List Text
  keys [] = []
  keys ((k, v) ∷ d) = k ∷ keys d

  -- `d.get(k)`
  unfoldable pub lookup : Text → Dict V → Option V
  lookup k [] = none
  lookup k ((j, v) ∷ d) = if text_eq j k then some v else lookup k d

  -- `k in d`
  abbrev pub contains : Text → Dict V → Bool
  contains k d = is_some (lookup k d)

  -- `d[k] = v`: a known key keeps its place, a new one goes last
  unfoldable pub insert : Text → V → Dict V → Dict V
  insert k v [] = (k, v) ∷ []
  insert k v ((j, w) ∷ d) = if text_eq j k then (j, v) ∷ d else (j, w) ∷ insert k v d

  -- `del d[k]`, where `k in d`
  unfoldable pub erase : Text → Dict V → Dict V
  erase k [] = []
  erase k ((j, w) ∷ d) = if text_eq j k then erase k d else (j, w) ∷ erase k d

  pub lookup-insert :
      (k j : Text) (v : V) (d : Dict V)
      → lookup j (insert k v d) ≡ (if text_eq k j then some v else lookup j d)
  unfolding lookup insert
  lookup-insert k j v [] = refl
  lookup-insert k j v ((i, w) ∷ d) =
      ground (arith, text_eq_iff k j, text_eq_iff i k, text_eq_iff i j, lookup-insert k j v d)

  pub lookup-erase :
      (k j : Text) (d : Dict V) → lookup j (erase k d) ≡ (if text_eq k j then none else lookup j d)
  unfolding lookup erase
  lookup-erase k j [] = ground arith
  lookup-erase k j ((i, w) ∷ d) =
      ground (arith, text_eq_iff k j, text_eq_iff i k, text_eq_iff i j, lookup-erase k j d)

  -- Every key once.
  abbrev pub Distinct : Dict V → Type 0
  Distinct [] = Unit {0}
  Distinct ((k, v) ∷ d) = (contains k d ≡ false) × Distinct d

  pub erase_absent : (k : Text) (d : Dict V) → contains k d ≡ false → erase k d ≡ d
  unfolding lookup erase
  erase_absent k [] h = refl
  erase_absent k ((j, w) ∷ d) h = ground (arith, erase_absent k d)

  pub contains-erase :
      (k j : Text) (d : Dict V) → contains j d ≡ false → contains j (erase k d) ≡ false
  contains-erase k j d h = ground (arith, lookup-erase k j d)

  pub erase-Distinct : (k : Text) (d : Dict V) → Distinct d → Distinct (erase k d)
  unfolding erase
  erase-Distinct k [] h = tt
  erase-Distinct k ((j, w) ∷ d) h = ground (arith, erase-Distinct k d, contains-erase k j d)

  pub insert-Distinct : (k : Text) (v : V) (d : Dict V) → Distinct d → Distinct (insert k v d)
  unfolding insert lookup
  insert-Distinct k v [] h = ground arith
  insert-Distinct k v ((j, w) ∷ d) h =
      ground (arith, insert-Distinct k v d, lookup-insert k j v d, text_eq_iff j k, text_eq_iff k j)

  pub length-insert_new :
      (k : Text) (v : V) (d : Dict V) → contains k d ≡ false → length (insert k v d) ≡ length d + 1
  unfolding insert lookup
  length-insert_new k v [] h = refl
  length-insert_new k v ((j, w) ∷ d) h = ground (arith, length-insert_new k v d)

  pub length-insert-le : (k : Text) (v : V) (d : Dict V) → length (insert k v d) ≤ length d + 1
  unfolding insert
  length-insert-le k v [] = omega arith
  length-insert-le k v ((j, w) ∷ d) = ground (arith, length-insert-le k v d)

  pub length-erase-le : (k : Text) (d : Dict V) → length (erase k d) ≤ length d
  unfolding erase
  length-erase-le k [] = omega arith
  length-erase-le k ((j, w) ∷ d) = ground (arith, length-erase-le k d)

  pub length-erase :
      (k : Text) (d : Dict V) → Distinct d → contains k d ≡ true → length (erase k d) + 1 ≡ length d
  unfolding erase lookup
  length-erase k [] h c = absurd (ground arith)
  length-erase k ((j, w) ∷ d) h c =
      ground (arith, length-erase k d, erase_absent k d, text_eq_iff j k)

  pub lookup-append_last :
      (j k : Text) (v : V) (d : Dict V)
      → contains k d ≡ false
      → lookup j (d ++ (k, v) ∷ []) ≡ (if text_eq k j then some v else lookup j d)
  unfolding lookup
  lookup-append_last j k v [] h = refl
  lookup-append_last j k v ((i, w) ∷ d) h =
      ground (arith, lookup-append_last j k v d, text_eq_iff k j, text_eq_iff i k, text_eq_iff i j)

  pub append_last-Distinct :
      (k : Text) (v : V) (d : Dict V)
      → contains k d ≡ false
      → Distinct d
      → Distinct (d ++ (k, v) ∷ [])
  unfolding lookup
  append_last-Distinct k v [] h dd = ground arith
  append_last-Distinct k v ((i, w) ∷ d) h dd = ground (
    arith,
    append_last-Distinct k v d,
    lookup-append_last i k v d,
    text_eq_iff i k,
    text_eq_iff k i,
  )

  pub contains-erase_self : (k : Text) (d : Dict V) → contains k (erase k d) ≡ false
  contains-erase_self k d = ground (arith, lookup-erase k k d, text_eq_refl k)

  pub insert_new :
      (k : Text) (v : V) (d : Dict V) → contains k d ≡ false → insert k v d ≡ d ++ (k, v) ∷ []
  unfolding insert lookup
  insert_new k v [] h = refl
  insert_new k v ((i, w) ∷ d) h = ground (arith, insert_new k v d)

  pub erase-append_last :
      (k : Text) (v : V) (d : Dict V) → contains k d ≡ false → erase k (d ++ (k, v) ∷ []) ≡ d
  unfolding erase lookup
  erase-append_last k v [] h = ground (arith, text_eq_refl k)
  erase-append_last k v ((i, w) ∷ d) h = ground (arith, erase-append_last k v d)

  pub contains-drop :
      (n : ℕ) (k : Text) (d : Dict V) → contains k d ≡ false → contains k (drop n d) ≡ false
  unfolding lookup
  contains-drop zero k d h = h
  contains-drop (suc n) k [] h = h
  contains-drop (suc n) k ((i, w) ∷ d) h = contains-drop n k d (ground arith)

  -- The last entry survives a drop of no more than what stands in front of it.
  pub lookup-drop-append_last :
      (n : ℕ) (k : Text) (v : V) (d : Dict V)
      → contains k d ≡ false
      → n ≤ length d
      → lookup k (drop n (d ++ (k, v) ∷ [])) ≡ some v
  unfolding lookup
  lookup-drop-append_last zero k v d h le =
      ground (arith, lookup-append_last k k v d h, text_eq_refl k)
  lookup-drop-append_last (suc n) k v [] h le = absurd (omega arith)
  lookup-drop-append_last (suc n) k v ((i, w) ∷ d) h le =
      lookup-drop-append_last n k v d (ground arith) (omega arith)

  -- What a comprehension over a dict keeps, it keeps as it was.
  pub lookup-keep_if :
      (test : Text × V → Bool) (k : Text) (d : Dict V)
      → Distinct d
      → lookup k (keep_if test d)
        ≡ (elim (lookup k d) [ none ↦ none | some v ↦ if test (k, v) then some v else none ])
  unfolding lookup
  lookup-keep_if test k [] h = refl
  lookup-keep_if test k ((j, w) ∷ d) h =
      ground (arith, lookup-keep_if test k d, lookup-keep_if test j d, text_eq_iff j k)

  pub keep_if-Distinct :
      (test : Text × V → Bool) (d : Dict V) → Distinct d → Distinct (keep_if test d)
  keep_if-Distinct test [] h = tt
  keep_if-Distinct test ((j, w) ∷ d) h =
      ground (arith, keep_if-Distinct test d, lookup-keep_if test j d)

  pub text_in-keys : (k : Text) (d : Dict V) → text_in k (keys d) ≡ contains k d
  unfolding text_in lookup
  text_in-keys k [] = refl
  text_in-keys k ((j, w) ∷ d) = ground (arith, text_in-keys k d)

  -- Writing under a known key adds no entry.
  pub length-insert_known :
      (k : Text) (v : V) (d : Dict V) → contains k d ≡ true → length (insert k v d) ≡ length d
  unfolding insert lookup
  length-insert_known k v [] h = cc
  length-insert_known k v ((j, w) ∷ d) h = ground (arith, length-insert_known k v d)
