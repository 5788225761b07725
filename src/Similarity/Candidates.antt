-- ===== src/Similarity/Candidates.antt =====
-- Which functions of an index src/ida_multi_mcp/tools/similarity.py scores for a query.
use ida_multi_mcp.Prelude.{
  ℕ, ◌≡◌, refl, ap, ◌∙◌, Bool, false, not, ◌&&◌, ◌||◌, List, [], ◌∷◌, ◌++◌, Option, none, some,
  Text, text_eq, text_eq_iff, text_in, keep_if, arith,
}
use ida_multi_mcp.Similarity.{
  Feature, Hashing, build_lsh, build_anchor_index, df_of, lsh_candidates, anchor_candidates,
  candidates,
}
use ida_multi_mcp.Similarity.Sets.{text_in-append}
use ida_multi_mcp.Similarity.Buckets.{ShowsApart, any_near, text_in-lsh_candidates}
use ida_multi_mcp.Similarity.Anchors.{shares_rare, text_in-anchor_candidates}

text_in-discard :
    (x a : Text) (xs : List Text)
    → text_in x (keep_if (λ y. not (text_eq y a)) xs) ≡ text_in x xs && not (text_eq x a)
unfolding text_in
text_in-discard x a [] = refl
text_in-discard x a (y ∷ ys) = ground (arith, text_in-discard x a ys, text_eq_iff y x)

-- The address is the one that is discarded.
abbrev pub is_own : Option Text → Text → Bool
is_own none x = false
is_own (some a) x = text_eq x a

module _ (h : Hashing) where
  -- Whether a record with this address agrees with the query's signature, if it has one, on a band.
  abbrev pub any_near_to : List ℕ → Text → List Feature → Bool
  any_near_to [] x rs = false
  any_near_to (y ∷ ys) x rs = any_near h (y ∷ ys) x rs

  near_candidates :
      (x : Text) (sig : List ℕ) (rs : List Feature)
      → ShowsApart h
      → text_in x (lsh_candidates h sig (build_lsh h rs)) ≡ any_near_to sig x rs
  unfolding lsh_candidates text_in
  near_candidates x [] rs apart = refl
  near_candidates x (y ∷ ys) rs apart = text_in-lsh_candidates h x y ys rs apart

  found_in :
      (x : Text) (q : Feature) (rs : List Feature) (rare_df : ℕ)
      → ShowsApart h
      → text_in x (
          lsh_candidates h q.minhash (build_lsh h rs)
          ++ anchor_candidates q (build_anchor_index rs) (λ f. df_of f rs) rare_df)
        ≡ any_near_to q.minhash x rs || shares_rare q x rs rare_df
  found_in x q rs rare_df apart =
      text_in-append x (lsh_candidates h q.minhash (build_lsh h rs))
        (anchor_candidates q (build_anchor_index rs) (λ f. df_of f rs) rare_df)
      ∙ rw (near_candidates x q.minhash rs apart, text_in-anchor_candidates x q rs rare_df) refl

  -- In the indexes built from the records, the candidates for a query are exactly the addresses,
  -- less the discarded one, of the records that agree with its signature on an LSH band or share
  -- with it an anchor that at most `rare_df` records have. The texts of two bands are supposed to
  -- differ.
  pub text_in-candidates :
      (x : Text) (q : Feature) (rs : List Feature) (rare_df : ℕ) (own : Option Text)
      → ShowsApart h
      → text_in x
          (candidates h q (build_lsh h rs) (build_anchor_index rs) (λ f. df_of f rs) rare_df own)
        ≡ (any_near_to q.minhash x rs || shares_rare q x rs rare_df) && not (is_own own x)
  unfolding candidates
  text_in-candidates x q rs rare_df none apart = found_in x q rs rare_df apart ∙ ground arith
  text_in-candidates x q rs rare_df (some a) apart =
      text_in-discard x a (
        lsh_candidates h q.minhash (build_lsh h rs)
        ++ anchor_candidates q (build_anchor_index rs) (λ f. df_of f rs) rare_df)
      ∙ ap (λ b. b && not (text_eq x a)) (found_in x q rs rare_df apart)
