-- ===== src/Similarity/Anchors.antt =====
-- `anchor_candidates` of src/ida_multi_mcp/tools/sim_score.py in what `build_anchor_index` stored.
use ida_multi_mcp.Prelude.{
  ℕ, ◌≡◌, refl, Bool, false, ◌&&◌, ◌||◌, List, [], ◌∷◌, ◌++◌, Text, text_eq, text_in, Dict, lookup,
  or_default, leb, inl, inr, Bool-cases, arith,
}
use ida_multi_mcp.Similarity.{
  Feature, Field, apis, strings, consts, field, set_of, append_to, add_anchors, anchors_from,
  build_anchor_index, rare_from, anchor_candidates, df_of,
}
use ida_multi_mcp.Similarity.Sets.{text_in-append, text_in-set_of}
use ida_multi_mcp.Similarity.Frequencies.{records_with, frequency, frequency-df_of}
use ida_multi_mcp.Similarity.Buckets.{text_in-append_to}

text_in-add_anchors :
    (x k addr : Text) (ys : List Text) (d : Dict (List Text))
    → text_in x (or_default (lookup k (add_anchors ys addr d)) [])
      ≡ text_in x (or_default (lookup k d) []) || (text_in k ys && text_eq addr x)
unfolding add_anchors text_in
text_in-add_anchors x k addr [] d = ground arith
text_in-add_anchors x k addr (y ∷ ys) d =
    ground
      (arith, text_in-add_anchors x k addr ys (append_to y addr d), text_in-append_to x y k addr d)

-- Whether a record with this address has the anchor.
abbrev pub any_with : Text → Text → Field → List Feature → Bool
any_with k x f [] = false
any_with k x f (r ∷ rs) = (text_in k (field f r) && text_eq r.addr x) || any_with k x f rs

text_in-anchors_from :
    (x k : Text) (f : Field) (rs : List Feature) (d : Dict (List Text))
    → text_in x (or_default (lookup k (anchors_from f rs d)) [])
      ≡ text_in x (or_default (lookup k d) []) || any_with k x f rs
unfolding anchors_from
text_in-anchors_from x k f [] d = ground arith
text_in-anchors_from x k f (r ∷ rs) d = ground (
  arith,
  text_in-anchors_from x k f rs (add_anchors (set_of (field f r)) r.addr d),
  text_in-add_anchors x k r.addr (set_of (field f r)) d,
  text_in-set_of k (field f r),
)

text_in-build_anchor_index :
    (x k : Text) (f : Field) (rs : List Feature)
    → text_in x (or_default (lookup k (build_anchor_index rs f)) []) ≡ any_with k x f rs
unfolding lookup text_in
text_in-build_anchor_index x k f rs = text_in-anchors_from x k f rs []

-- Whether one of the anchors, which at most `rare_df` records have, is one of a record with this
-- address.
abbrev pub any_rare : List Text → Text → Field → List Feature → ℕ → Bool
any_rare [] x f rs rare_df = false
any_rare (y ∷ ys) x f rs rare_df =
    (leb (records_with y f rs) rare_df && any_with y x f rs) || any_rare ys x f rs rare_df

text_in-rare_from :
    (x : Text) (ys : List Text) (f : Field) (rs : List Feature) (rare_df : ℕ)
    → text_in x (rare_from ys (build_anchor_index rs f) (df_of f rs) rare_df)
      ≡ any_rare ys x f rs rare_df
unfolding rare_from text_in
text_in-rare_from x [] f rs rare_df = refl
text_in-rare_from x (y ∷ ys) f rs rare_df =
    let rest = rare_from ys (build_anchor_index rs f) (df_of f rs) rare_df in
    let ih = text_in-rare_from x ys f rs rare_df in
    let found = text_in-build_anchor_index x y f rs in
    let n = frequency-df_of y f rs in
    elim (Bool-cases (leb (frequency y (df_of f rs)) rare_df)) [
      | inl e ↦
          ground (arith, text_in-append x (or_default (lookup y (build_anchor_index rs f)) []) rest)
      | inr e ↦ ground arith
    ]

-- Whether a record with this address shares an anchor with the query that at most `rare_df` records
-- have.
abbrev pub shares_rare : Feature → Text → List Feature → ℕ → Bool
shares_rare q x rs rare_df =
    any_rare q.apis x apis rs rare_df
    || (any_rare q.strings x strings rs rare_df || any_rare q.consts x consts rs rare_df)

pub text_in-anchor_candidates :
    (x : Text) (q : Feature) (rs : List Feature) (rare_df : ℕ)
    → text_in x (anchor_candidates q (build_anchor_index rs) (λ f. df_of f rs) rare_df)
      ≡ shares_rare q x rs rare_df
unfolding anchor_candidates
text_in-anchor_candidates x q rs rare_df =
    let from =
      λ (f : Field) (ys : List Text). rare_from ys (build_anchor_index rs f) (df_of f rs) rare_df in
    rw
      (
        text_in-append x (from apis q.apis) (from strings q.strings ++ from consts q.consts),
        text_in-append x (from strings q.strings) (from consts q.consts),
        text_in-rare_from x q.apis apis rs rare_df,
        text_in-rare_from x q.strings strings rs rare_df,
        text_in-rare_from x q.consts consts rs rare_df,
      )
      refl
