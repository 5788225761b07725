-- ===== src/Similarity/Frequencies.antt =====
-- `df_of` of src/ida_multi_mcp/tools/sim_score.py counts the records that have an anchor.
use ida_multi_mcp.Prelude.{
  ℕ, ◌+◌, ◌≡◌, List, [], ◌∷◌, Text, text_eq, text_eq_iff, text_in, Dict, lookup, insert,
  lookup-insert, or_default, if◌then◌else◌, arith,
}
use ida_multi_mcp.Similarity.{Feature, Field, field, set_of, count_items, df_from, df_of}
use ida_multi_mcp.Similarity.Sets.{occurs, occurs-set_of}

-- The number of records with the anchor.
abbrev pub records_with : Text → Field → List Feature → ℕ
records_with x f [] = 0
records_with x f (r ∷ rs) = (if text_in x (field f r) then 1 else 0) + records_with x f rs

abbrev pub frequency : Text → Dict ℕ → ℕ
frequency x df = or_default (lookup x df) 0

frequency-insert :
    (x y : Text) (n : ℕ) (df : Dict ℕ)
    → frequency x (insert y n df) ≡ (if text_eq y x then n else frequency x df)
frequency-insert x y n df = ground (arith, lookup-insert y x n df)

frequency-count_items :
    (x : Text) (xs : List Text) (df : Dict ℕ)
    → frequency x (count_items xs df) ≡ frequency x df + occurs x xs
unfolding count_items
frequency-count_items x [] df = omega arith
frequency-count_items x (y ∷ ys) df = ground (
  arith,
  frequency-count_items x ys (insert y (frequency y df + 1) df),
  frequency-insert x y (frequency y df + 1) df,
  text_eq_iff y x,
)

frequency-df_from :
    (x : Text) (f : Field) (rs : List Feature) (df : Dict ℕ)
    → frequency x (df_from f rs df) ≡ frequency x df + records_with x f rs
unfolding df_from
frequency-df_from x f [] df = omega arith
frequency-df_from x f (r ∷ rs) df = omega (
  arith,
  frequency-df_from x f rs (count_items (set_of (field f r)) df),
  frequency-count_items x (set_of (field f r)) df,
  occurs-set_of x (field f r),
)

-- The frequency of an anchor is the number of records that have it.
pub frequency-df_of :
    (x : Text) (f : Field) (rs : List Feature) → frequency x (df_of f rs) ≡ records_with x f rs
unfolding lookup
frequency-df_of x f rs = ground (arith, frequency-df_from x f rs [])
