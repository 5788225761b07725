-- ===== src/Similarity/Signatures.antt =====
-- The MinHash signatures of src/ida_multi_mcp/tools/sim_score.py.
use ida_multi_mcp.Prelude.{
  ℕ, zero, suc, ◌≤◌, ◌<◌, ◌≡◌, refl, sym, ◌∙◌, inl, inr, Bool, true, false, ◌||◌, List, [], ◌∷◌,
  Text, length, ◌==◌, ==_iff, leb, leb→le, Bool-cases, arith,
}
use native.Mathlib.Nat.{mod-lt}
use ida_multi_mcp.Similarity.{
  Hashing, modulus, signature_length, shingles, permuted, min_over, signature_from, compute_minhash,
  matches, jaccard_minhash,
}

-- `n in ns`
abbrev pub number_in : ℕ → List ℕ → Bool
number_in n [] = false
number_in n (m ∷ ms) = m == n || number_in n ms

-- Every number is below the bound.
abbrev pub AllBelow : ℕ → List ℕ → Type 0
AllBelow b [] = Unit {0}
AllBelow b (n ∷ ns) = (n < b) × AllBelow b ns

module _ (h : Hashing) where
  permuted-lt : (j s : ℕ) → permuted h j s < modulus
  unfolding modulus
  permuted-lt j s = mod-lt _ (omega arith)

  min_over-le :
      (j s t : ℕ) (ts : List ℕ) → number_in t (s ∷ ts) ≡ true → min_over h j s ts ≤ permuted h j t
  unfolding min_over
  min_over-le j s t [] e = let q : s ≡ t = (==_iff s t).0 (ground arith) in rw q (omega arith)
  min_over-le j s t (u ∷ us) e = elim (Bool-cases (s == t)) [
    | inl eq ↦ let q : s ≡ t = (==_iff s t).0 eq in rw q (omega arith)
    | inr ne ↦ omega (arith, min_over-le j u t us (ground arith))
  ]

  -- The minimum is that of a member.
  min_over-attained :
      (j s : ℕ) (ts : List ℕ)
      → (t : ℕ) × (number_in t (s ∷ ts) ≡ true) × (min_over h j s ts ≡ permuted h j t)
  unfolding min_over
  min_over-attained j s [] = (s, ground arith, refl)
  min_over-attained j s (u ∷ us) =
      let ih = min_over-attained j u us in
      elim (Bool-cases (leb (permuted h j s) (min_over h j u us))) [
        | inl e ↦ (s, ground arith, omega (arith, leb→le (permuted h j s) (min_over h j u us) e))
        | inr e ↦ (ih.0, ground arith, (let q = ih.2 in ground arith))
      ]

  -- The minimum depends on the members only.
  min_over-same :
      (j s s' : ℕ) (ts ts' : List ℕ)
      → ((n : ℕ) → number_in n (s ∷ ts) ≡ number_in n (s' ∷ ts'))
      → min_over h j s ts ≡ min_over h j s' ts'
  min_over-same j s s' ts ts' e =
      let a = min_over-attained j s ts in
      let b = min_over-attained j s' ts' in
      let le = min_over-le j s' a.0 ts' (sym (e a.0) ∙ a.1) in
      let ge = min_over-le j s b.0 ts (e b.0 ∙ b.1) in omega (arith, a.2, b.2, le, ge)

  signature_from-same :
      (n j s s' : ℕ) (ts ts' : List ℕ)
      → ((k : ℕ) → number_in k (s ∷ ts) ≡ number_in k (s' ∷ ts'))
      → signature_from h n j s ts ≡ signature_from h n j s' ts'
  unfolding signature_from
  signature_from-same zero j s s' ts ts' e = refl
  signature_from-same (suc n) j s s' ts ts' e =
      rw (min_over-same j s s' ts ts' e, signature_from-same n (suc j) s s' ts ts' e) refl

  min_over-lt : (j s : ℕ) (ts : List ℕ) → min_over h j s ts < modulus
  min_over-lt j s ts = let a = min_over-attained j s ts in rw (a.2) (permuted-lt j a.0)

  signature_from-AllBelow :
      (n j s : ℕ) (ts : List ℕ)
      → AllBelow modulus (signature_from h n j s ts) × (length (signature_from h n j s ts) ≡ n)
  unfolding signature_from
  signature_from-AllBelow zero j s ts = (tt, refl)
  signature_from-AllBelow (suc n) j s ts =
      let ih = signature_from-AllBelow n (suc j) s ts in
      ((min_over-lt j s ts, ih.0), omega (arith, ih.1))

  compute_minhash-cons :
      (tokens : List Text) (s : ℕ) (ts : List ℕ)
      → shingles h tokens ≡ s ∷ ts
      → compute_minhash h tokens ≡ signature_from h signature_length 0 s ts
  unfolding compute_minhash
  compute_minhash-cons tokens s ts e = rw (compute_minhash, e) refl

matches_self : (xs : List ℕ) → matches xs xs ≡ length xs
unfolding matches
matches_self [] = refl
matches_self (x ∷ xs) = ground (arith, matches_self xs)

jaccard_minhash_self :
    (xs : List ℕ) (n : ℕ) → length xs ≡ suc n → jaccard_minhash xs xs ≡ (suc n, suc n)
unfolding jaccard_minhash
jaccard_minhash_self [] n e = absurd (omega arith)
jaccard_minhash_self (x ∷ xs) n e = ground (arith, matches_self (x ∷ xs))

module _ (h : Hashing) where
  -- Two streams of tokens with the same shingles, of which there is one at least, have the same
  -- signature, of 64 numbers below 2^61 - 1, and their estimated similarity is 64 of 64: the order
  -- in which a set is walked does not matter.
  pub compute_minhash-same :
      (tokens tokens' : List Text) (s s' : ℕ) (ts ts' : List ℕ)
      → shingles h tokens ≡ s ∷ ts
      → shingles h tokens' ≡ s' ∷ ts'
      → ((n : ℕ) → number_in n (s ∷ ts) ≡ number_in n (s' ∷ ts'))
      → let sig = compute_minhash h tokens in
        (compute_minhash h tokens' ≡ sig)
        × (length sig ≡ 64)
        × AllBelow modulus sig
        × (jaccard_minhash sig (compute_minhash h tokens') ≡ (64, 64))
  compute_minhash-same tokens tokens' s s' ts ts' e e' same =
      let sig = signature_from h signature_length 0 s ts in
      let a : compute_minhash h tokens ≡ sig = compute_minhash-cons h tokens s ts e in
      let b : compute_minhash h tokens' ≡ sig =
        compute_minhash-cons h tokens' s' ts' e'
        ∙ sym (signature_from-same h signature_length 0 s s' ts ts' same) in
      let k = signature_from-AllBelow h signature_length 0 s ts in
      rw (a, b) (refl, k.1, k.0, jaccard_minhash_self sig 63 k.1)
