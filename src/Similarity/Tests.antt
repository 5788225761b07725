-- ===== src/Similarity/Tests.antt =====
-- Runs of src/ida_multi_mcp/tools/sim_score.py on small records.
use ida_multi_mcp.Prelude.{
  ℕ, ◌+◌, ◌≡◌, refl, not, ◌&&◌, ◌||◌, List, [], ◌∷◌, some, Text, text, text_eq, text_in, lookup,
  insert, length, arith,
}
use ida_multi_mcp.Similarity.{
  Hashing, Feature, set_of, windows, join_bar, shingles, compute_minhash, jaccard_minhash, modulus,
  build_lsh, build_anchor_index, df_of, candidates, apis, count_items, df_from,
}
use ida_multi_mcp.Similarity.Buckets.{ShowsApart}
use ida_multi_mcp.Similarity.Anchors.{shares_rare}
use ida_multi_mcp.Similarity.Candidates.{any_near_to, is_own, text_in-candidates}
use ida_multi_mcp.Similarity.Frequencies.{frequency}
use ida_multi_mcp.Similarity.Signatures.{number_in, AllBelow, compute_minhash-same}

-- A text hashes to the sum of its characters; a number is shown as one character.
abbrev sum : Text → ℕ
sum [] = 0
sum (c ∷ cs) = c + sum cs

abbrev hashing : Hashing
hashing = record {
  hash64 = sum;
  str_of = λ n. n ∷ [];
  str_of_tuple = λ ns. ns;
  hex_of = λ n. n ∷ [];
}

hashing-ShowsApart : ShowsApart hashing
unfolding text_eq
hashing-ShowsApart i j = ground arith

abbrev feature : Text → List ℕ → List Text → Feature
feature addr sig names = record {
  addr = addr;
  minhash = sig;
  apis = names;
  strings = [];
  consts = [];
}

abbrev query : Feature
query = feature (text "0x10") (7 ∷ 8 ∷ []) (text "open" ∷ text "open" ∷ [])

abbrev records : List Feature
records =
    query ∷ feature (text "0x20") [] (text "open" ∷ []) ∷ feature (text "0x30") (1 ∷ 2 ∷ []) [] ∷ []

opens : frequency (text "open") (df_of apis records) ≡ 2
unfolding df_from count_items set_of lookup insert text_eq text_in
opens = refl

text_in-candidates_example :
    text_in (text "0x20") (
      candidates hashing query
        (build_lsh hashing records)
        (build_anchor_index records)
        (λ f. df_of f records)
        2
        (some (text "0x10")))
    ≡ (any_near_to hashing query.minhash (text "0x20") records
        || shares_rare query (text "0x20") records 2)
      && not (is_own (some (text "0x10")) (text "0x20"))
text_in-candidates_example =
    text_in-candidates hashing (text "0x20") query records 2 (some (text "0x10")) hashing-ShowsApart

-- Two streams that repeat one token, of different lengths.
abbrev short_run : List Text
short_run = text "a" ∷ text "a" ∷ text "a" ∷ text "a" ∷ text "a" ∷ []

abbrev long_run : List Text
long_run = text "a" ∷ short_run

abbrev hash : ℕ
hash = sum (text "a|a|a|a")

short_shingles : shingles hashing short_run ≡ hash ∷ hash ∷ []
unfolding shingles windows join_bar
short_shingles = refl

long_shingles : shingles hashing long_run ≡ hash ∷ hash ∷ hash ∷ []
unfolding shingles windows join_bar
long_shingles = refl

one_shingle : (n : ℕ) → number_in n (hash ∷ hash ∷ []) ≡ number_in n (hash ∷ hash ∷ hash ∷ [])
one_shingle n = ground arith

compute_minhash-same_example :
    let sig = compute_minhash hashing short_run in
    (compute_minhash hashing long_run ≡ sig)
    × (length sig ≡ 64)
    × AllBelow modulus sig
    × (jaccard_minhash sig (compute_minhash hashing long_run) ≡ (64, 64))
compute_minhash-same_example =
    compute_minhash-same hashing short_run long_run hash hash (hash ∷ []) (hash ∷ hash ∷ [])
      short_shingles long_shingles one_shingle
