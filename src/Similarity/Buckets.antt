-- ===== src/Similarity/Buckets.antt =====
-- The LSH buckets of src/ida_multi_mcp/tools/sim_score.py: what `lsh_candidates` finds in what
-- `build_lsh` stored.
use ida_multi_mcp.Prelude.{
  ℕ, zero, suc, ◌+◌, ◌<◌, ◌≡◌, refl, ap, ◌∙◌, inl, inr, Bool, false, ◌&&◌, ◌||◌, List, [], ◌∷◌,
  ◌++◌, Text, text_eq, text_eq_iff, text_in, Dict, lookup, lookup-insert, or_default, ◌==◌, ==_iff,
  leb, ltb, Bool-cases, arith,
}
use ida_multi_mcp.Similarity.{
  Feature, Hashing, band_key, append_to, Lsh, add_band, add_bands, add_record, lsh_from, build_lsh,
  bucket, candidates_from, lsh_candidates, bands,
}
use ida_multi_mcp.Similarity.Sets.{text_in-append}

pub text_in-append_to :
    (x key k addr : Text) (d : Dict (List Text))
    → text_in x (or_default (lookup k (append_to key addr d)) [])
      ≡ text_in x (or_default (lookup k d) []) || (text_eq key k && text_eq addr x)
unfolding append_to text_in
text_in-append_to x key k addr d = ground (
  arith,
  lookup-insert key k (or_default (lookup key d) [] ++ addr ∷ []) d,
  text_in-append x (or_default (lookup key d) []) (addr ∷ []),
  text_eq_iff key k,
)

module _ (h : Hashing) where
  -- Texts of different bands differ.
  abbrev pub ShowsApart : Type 0
  ShowsApart = (i j : ℕ) → text_eq (h.str_of i) (h.str_of j) ≡ i == j

  bucket-add_band :
      (x : Text) (r : Feature) (band j : ℕ) (key : Text) (lsh : Lsh)
      → ShowsApart
      → text_in x (bucket h (h.str_of j) key (add_band h r band lsh))
        ≡ text_in x (bucket h (h.str_of j) key lsh)
          || (band == j && (text_eq (band_key h r.minhash band) key && text_eq r.addr x))
  unfolding add_band
  bucket-add_band x r band j key lsh apart =
      let e = apart band j in
      let name = h.str_of band in
      let inner = append_to (band_key h r.minhash band) r.addr (or_default (lookup name lsh) []) in
      ground (
        arith,
        lookup-insert name (h.str_of j) inner lsh,
        text_eq_iff name (h.str_of j),
        text_in-append_to x (band_key h r.minhash band) key r.addr
            (or_default (lookup name lsh) []),
      )

  bucket-add_bands :
      (x : Text) (r : Feature) (n band j : ℕ) (key : Text) (lsh : Lsh)
      → ShowsApart
      → text_in x (bucket h (h.str_of j) key (add_bands h r n band lsh))
        ≡ text_in x (bucket h (h.str_of j) key lsh)
          || ((leb band j && ltb j (band + n))
              && (text_eq (band_key h r.minhash j) key && text_eq r.addr x))
  unfolding add_bands
  bucket-add_bands x r zero band j key lsh apart = ground arith
  bucket-add_bands x r (suc n) band j key lsh apart =
      let ih = bucket-add_bands x r n (suc band) j key (add_band h r band lsh) apart in
      let step = bucket-add_band x r band j key lsh apart in
      let same = λ (e : band ≡ j). ap (band_key h r.minhash) e in
      elim (Bool-cases (band == j)) [
        | inl e ↦ let q = same ((==_iff band j).0 e) in ground arith
        | inr e ↦ ground arith
      ]

  -- Whether a record stands in a bucket of a band.
  abbrev stored : List ℕ → Feature → ℕ → Text → Text → Bool
  stored [] r j key x = false
  stored (y ∷ ys) r j key x = text_eq (band_key h r.minhash j) key && text_eq r.addr x

  abbrev any_stored : List Feature → ℕ → Text → Text → Bool
  any_stored [] j key x = false
  any_stored (r ∷ rs) j key x = stored r.minhash r j key x || any_stored rs j key x

  bucket-add_record :
      (x : Text) (r : Feature) (sig : List ℕ) (j : ℕ) (key : Text) (lsh : Lsh)
      → ShowsApart
      → j < bands
      → text_in x (bucket h (h.str_of j) key (add_record h r sig lsh))
        ≡ text_in x (bucket h (h.str_of j) key lsh) || stored sig r j key x
  bucket-add_record x r [] j key lsh apart lt = ground arith
  bucket-add_record x r (y ∷ ys) j key lsh apart lt =
      ground (arith, bucket-add_bands x r bands 0 j key lsh apart)

  bucket-lsh_from :
      (x : Text) (rs : List Feature) (j : ℕ) (key : Text) (lsh : Lsh)
      → ShowsApart
      → j < bands
      → text_in x (bucket h (h.str_of j) key (lsh_from h rs lsh))
        ≡ text_in x (bucket h (h.str_of j) key lsh) || any_stored rs j key x
  unfolding lsh_from
  bucket-lsh_from x [] j key lsh apart lt = ground arith
  bucket-lsh_from x (r ∷ rs) j key lsh apart lt = ground (
    arith,
    bucket-lsh_from x rs j key (add_record h r r.minhash lsh) apart lt,
    bucket-add_record x r r.minhash j key lsh apart lt,
  )

-- Whether a test holds of one of the `n` bands from `band` on.
abbrev pub any_band : ℕ → ℕ → (ℕ → Bool) → Bool
any_band zero band p = false
any_band (suc n) band p = p band || any_band n (suc band) p

any_band-or :
    (n band : ℕ) (p q : ℕ → Bool)
    → any_band n band (λ j. p j || q j) ≡ any_band n band p || any_band n band q
any_band-or zero band p q = refl
any_band-or (suc n) band p q = ground (arith, any_band-or n (suc band) p q)

any_band-false : (n band : ℕ) → any_band n band (λ j. false) ≡ false
any_band-false zero band = refl
any_band-false (suc n) band = any_band-false n (suc band)

any_band-and :
    (n band : ℕ) (p : ℕ → Bool) (b : Bool)
    → any_band n band (λ j. p j && b) ≡ any_band n band p && b
any_band-and zero band p b = refl
any_band-and (suc n) band p b = ground (arith, any_band-and n (suc band) p b)

any_band-ext :
    (n band : ℕ) (p q : ℕ → Bool)
    → ((j : ℕ) → j < band + n → p j ≡ q j)
    → any_band n band p ≡ any_band n band q
any_band-ext zero band p q e = refl
any_band-ext (suc n) band p q e =
    let now = e band (omega arith) in
    let ih = any_band-ext n (suc band) p q (λ j lt. e j (omega arith)) in ground arith

module _ (h : Hashing) where
  -- Two signatures agree on a band.
  abbrev pub shares_band : List ℕ → List ℕ → Bool
  shares_band a b = any_band bands 0 (λ j. text_eq (band_key h b j) (band_key h a j))

  -- Whether a record has a signature that agrees with `sig` on a band.
  abbrev pub is_near : List ℕ → List ℕ → Bool
  is_near sig [] = false
  is_near sig (y ∷ ys) = shares_band sig (y ∷ ys)

  -- Whether a record with this address agrees with `sig` on a band.
  abbrev pub any_near : List ℕ → Text → List Feature → Bool
  any_near sig x [] = false
  any_near sig x (r ∷ rs) = (is_near sig r.minhash && text_eq r.addr x) || any_near sig x rs

  text_in-candidates_from :
      (x : Text) (sig : List ℕ) (n band : ℕ) (lsh : Lsh)
      → text_in x (candidates_from h sig n band lsh)
        ≡ any_band n band (λ j. text_in x (bucket h (h.str_of j) (band_key h sig j) lsh))
  unfolding candidates_from text_in
  text_in-candidates_from x sig zero band lsh = refl
  text_in-candidates_from x sig (suc n) band lsh = ground (
    arith,
    text_in-candidates_from x sig n (suc band) lsh,
    text_in-append x (bucket h (h.str_of band) (band_key h sig band) lsh)
        (candidates_from h sig n (suc band) lsh),
  )

  stored-is_near :
      (x : Text) (sig m : List ℕ) (r : Feature)
      → r.minhash ≡ m
      → any_band bands 0 (λ j. stored h m r j (band_key h sig j) x)
        ≡ is_near sig m && text_eq r.addr x
  stored-is_near x sig [] r e = any_band-false bands 0
  stored-is_near x sig (y ∷ ys) r e = rw e (
      any_band-and bands 0 (λ j. text_eq (band_key h (y ∷ ys) j) (band_key h sig j))
        (text_eq r.addr x))

  any_stored-any_near :
      (x : Text) (sig : List ℕ) (rs : List Feature)
      → any_band bands 0 (λ j. any_stored h rs j (band_key h sig j) x) ≡ any_near sig x rs
  any_stored-any_near x sig [] = any_band-false bands 0
  any_stored-any_near x sig (r ∷ rs) =
      any_band-or bands 0 (λ j. stored h r.minhash r j (band_key h sig j) x)
        (λ j. any_stored h rs j (band_key h sig j) x)
      ∙ rw (stored-is_near x sig r.minhash r refl, any_stored-any_near x sig rs) refl

  -- The candidates for a signature are the addresses of the records that agree with it on a band.
  pub text_in-lsh_candidates :
      (x : Text) (y : ℕ) (ys : List ℕ) (rs : List Feature)
      → ShowsApart h
      → text_in x (lsh_candidates h (y ∷ ys) (build_lsh h rs)) ≡ any_near (y ∷ ys) x rs
  unfolding lsh_candidates lookup text_in
  text_in-lsh_candidates x y ys rs apart =
      text_in-candidates_from x (y ∷ ys) bands 0 (build_lsh h rs)
      ∙ any_band-ext bands 0
          (λ j. text_in x (bucket h (h.str_of j) (band_key h (y ∷ ys) j) (build_lsh h rs)))
          (λ j. any_stored h rs j (band_key h (y ∷ ys) j) x)
          (λ j lt. bucket-lsh_from h x rs j (band_key h (y ∷ ys) j) [] apart lt)
      ∙ any_stored-any_near x (y ∷ ys) rs
