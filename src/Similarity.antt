-- ===== src/Similarity.antt =====
-- src/ida_multi_mcp/tools/sim_score.py: the integer parts of the similarity search: shingles and
-- MinHash, document frequencies, and the two inverted indexes that yield candidates. blake2b and the
-- texts of numbers and tuples are a parameter; the weighted scores, which are floating point, are
-- not modelled. A Python set is a list, of which only the members matter.
mod Sets
mod Buckets
mod Anchors
mod Frequencies
mod Candidates
mod Signatures
mod Tests
use ida_multi_mcp.Prelude.{
  ℕ, zero, suc, ◌+◌, ◌-◌, ◌*◌, ◌%◌, ◌^◌, min, Bool, true, false, not, ◌&&◌, ◌||◌, List, [], ◌∷◌,
  ◌++◌, Option, none, some, Text, text_eq, text_in, Dict, lookup, insert, keep_if, length, take,
  drop, ltb, leb, ◌==◌, or_default, if◌then◌else◌, map,
}

-- The constants M, K, BANDS and ROWS, and the modulus P.
abbrev pub signature_length : ℕ
signature_length = 64

abbrev pub shingle_length : ℕ
shingle_length = 4

abbrev pub bands : ℕ
bands = 16

abbrev pub rows : ℕ
rows = 4

unfoldable pub modulus : ℕ
modulus = 2 ^ 61 - 1

-- `hash64`, and the texts of a number, of a tuple of numbers, and of a number in base 16.
pub record Hashing : Type 0 where
  pub hash64 : Text → ℕ
  pub str_of : ℕ → Text
  pub str_of_tuple : List ℕ → Text
  pub hex_of : ℕ → Text

-- What the search reads of a feature record.
pub record Feature : Type 0 where
  pub addr : Text
  pub minhash : List ℕ
  pub apis : List Text
  pub strings : List Text
  pub consts : List Text

-- The kinds of anchors.
pub data Field : Type 0 where
  apis strings consts : Field

abbrev pub field : Field → Feature → List Text
field apis r = r.apis
field strings r = r.strings
field consts r = r.consts

-- `set(xs)`
unfoldable pub set_of : List Text → List Text
set_of [] = []
set_of (x ∷ xs) = let rest = set_of xs in if text_in x rest then rest else x ∷ rest

-- `"|".join(parts)`
unfoldable pub join_bar : List Text → Text
join_bar [] = []
join_bar (t ∷ []) = t
join_bar (t ∷ u ∷ ts) = t ++ (b'|' ∷ join_bar (u ∷ ts))

module _ (h : Hashing) where
  -- The comprehension of `shingles`: the windows of `k` tokens, while there are `k`.
  unfoldable pub windows : ℕ → List Text → List ℕ
  unfolding join_bar
  windows k [] = []
  windows k (t ∷ ts) =
      let rest = windows k ts in
      if leb k (length (t ∷ ts)) then h.hash64 (join_bar (take k (t ∷ ts))) ∷ rest else []

  unfoldable pub shingles : List Text → List ℕ
  unfolding windows
  shingles tokens = if ltb (length tokens) shingle_length then [] else windows shingle_length tokens

  -- `_A[j]` and `_B[j]`
  unfoldable pub multiplier : ℕ → ℕ
  unfolding modulus
  multiplier j = 1 + h.hash64 (b'a' ∷ h.str_of j) % (modulus - 1)

  unfoldable pub offset : ℕ → ℕ
  unfolding modulus
  offset j = h.hash64 (b'b' ∷ h.str_of j) % modulus

  -- `(_A[j] * s + _B[j]) % P`
  abbrev pub permuted : ℕ → ℕ → ℕ
  permuted j s = (multiplier j * s + offset j) % modulus

  -- The minimum over a set with first element `s`.
  unfoldable pub min_over : ℕ → ℕ → List ℕ → ℕ
  min_over j s [] = permuted j s
  min_over j s (t ∷ ts) = min (permuted j s) (min_over j t ts)

  -- `[... for j in range(M)]`, from `j` on
  unfoldable pub signature_from : ℕ → ℕ → ℕ → List ℕ → List ℕ
  unfolding min_over
  signature_from zero j s ts = []
  signature_from (suc n) j s ts = min_over j s ts ∷ signature_from n (suc j) s ts

  unfoldable pub compute_minhash : List Text → List ℕ
  compute_minhash tokens = elim (shingles tokens) [
    | [] ↦ []
    | s ∷ ts ↦ signature_from signature_length 0 s ts
  ]

  -- `_band_key`
  unfoldable pub band_key : List ℕ → ℕ → Text
  band_key sig band = h.hex_of (h.hash64 (h.str_of_tuple (take rows (drop (band * rows) sig))))

-- The positions at which two signatures agree.
unfoldable pub matches : List ℕ → List ℕ → ℕ
matches [] ys = 0
matches (x ∷ xs) [] = 0
matches (x ∷ xs) (y ∷ ys) = (if x == y then 1 else 0) + matches xs ys

-- `jaccard_minhash`, as numerator and denominator of the quotient that it returns.
unfoldable pub jaccard_minhash : List ℕ → List ℕ → ℕ × ℕ
unfolding matches
jaccard_minhash [] ys = (0, 1)
jaccard_minhash (x ∷ xs) [] = (0, 1)
jaccard_minhash (x ∷ xs) (y ∷ ys) =
    if length (x ∷ xs) == length (y ∷ ys)
    then (matches (x ∷ xs) (y ∷ ys), length (x ∷ xs))
    else (0, 1)

-- `df[item] = df.get(item, 0) + 1` for each item
unfoldable pub count_items : List Text → Dict ℕ → Dict ℕ
count_items [] df = df
count_items (x ∷ xs) df = count_items xs (insert x (or_default (lookup x df) 0 + 1) df)

-- `df_of`, from the frequencies so far.
unfoldable pub df_from : Field → List Feature → Dict ℕ → Dict ℕ
unfolding count_items set_of
df_from f [] df = df
df_from f (r ∷ rs) df = df_from f rs (count_items (set_of (field f r)) df)

abbrev pub df_of : Field → List Feature → Dict ℕ
df_of f rs = df_from f rs []

-- `d.setdefault(key, []).append(addr)`
unfoldable pub append_to : Text → Text → Dict (List Text) → Dict (List Text)
append_to key addr d = insert key (or_default (lookup key d) [] ++ addr ∷ []) d

abbrev pub Lsh : Type 0
Lsh = Dict (Dict (List Text))

module _ (h : Hashing) where
  -- `lsh.setdefault(str(band), {}).setdefault(key, []).append(addr)`
  unfoldable pub add_band : Feature → ℕ → Lsh → Lsh
  unfolding append_to band_key
  add_band r band lsh =
      let name = h.str_of band in
      insert name (append_to (band_key h r.minhash band) r.addr (or_default (lookup name lsh) []))
        lsh

  -- The loop over the bands from `band` on.
  unfoldable pub add_bands : Feature → ℕ → ℕ → Lsh → Lsh
  unfolding add_band
  add_bands r zero band lsh = lsh
  add_bands r (suc n) band lsh = add_bands r n (suc band) (add_band r band lsh)

  abbrev pub add_record : Feature → List ℕ → Lsh → Lsh
  add_record r [] lsh = lsh
  add_record r (x ∷ xs) lsh = add_bands r bands 0 lsh

  -- `build_lsh`, from the index so far.
  unfoldable pub lsh_from : List Feature → Lsh → Lsh
  lsh_from [] lsh = lsh
  lsh_from (r ∷ rs) lsh = lsh_from rs (add_record r r.minhash lsh)

  abbrev pub build_lsh : List Feature → Lsh
  build_lsh rs = lsh_from rs []

  -- `lsh.get(str(band), {}).get(key, [])`
  abbrev pub bucket : Text → Text → Lsh → List Text
  bucket name key lsh = or_default (lookup key (or_default (lookup name lsh) [])) []

  -- The loop of `lsh_candidates` over the bands from `band` on.
  unfoldable pub candidates_from : List ℕ → ℕ → ℕ → Lsh → List Text
  unfolding band_key
  candidates_from sig zero band lsh = []
  candidates_from sig (suc n) band lsh =
      bucket (h.str_of band) (band_key h sig band) lsh ++ candidates_from sig n (suc band) lsh

  unfoldable pub lsh_candidates : List ℕ → Lsh → List Text
  lsh_candidates [] lsh = []
  lsh_candidates (x ∷ xs) lsh = candidates_from (x ∷ xs) bands 0 lsh

-- The loop of `build_anchor_index` over the anchors of a record.
unfoldable pub add_anchors : List Text → Text → Dict (List Text) → Dict (List Text)
unfolding append_to
add_anchors [] addr d = d
add_anchors (x ∷ xs) addr d = add_anchors xs addr (append_to x addr d)

-- `build_anchor_index` for one kind of anchors, from the index so far.
unfoldable pub anchors_from : Field → List Feature → Dict (List Text) → Dict (List Text)
unfolding add_anchors set_of
anchors_from f [] d = d
anchors_from f (r ∷ rs) d = anchors_from f rs (add_anchors (set_of (field f r)) r.addr d)

abbrev pub AnchorIndex : Type 0
AnchorIndex = Field → Dict (List Text)

abbrev pub build_anchor_index : List Feature → AnchorIndex
build_anchor_index rs f = anchors_from f rs []

-- The loop of `anchor_candidates` over the anchors of one kind.
unfoldable pub rare_from : List Text → Dict (List Text) → Dict ℕ → ℕ → List Text
rare_from [] index df rare_df = []
rare_from (x ∷ xs) index df rare_df =
    let rest = rare_from xs index df rare_df in
    if leb (or_default (lookup x df) 0) rare_df
    then or_default (lookup x index) [] ++ rest
    else rest

unfoldable pub anchor_candidates : Feature → AnchorIndex → (Field → Dict ℕ) → ℕ → List Text
unfolding rare_from
anchor_candidates q index df rare_df =
    rare_from q.apis (index apis) (df apis) rare_df
    ++ (rare_from q.strings (index strings) (df strings) rare_df
        ++ rare_from q.consts (index consts) (df consts) rare_df)

-- The candidates of `similar_functions` in one index, before the cap: `own` is the address that is
-- discarded, in the query's own index unless it is to be included.
unfoldable pub candidates :
    Hashing → Feature → Lsh → AnchorIndex → (Field → Dict ℕ) → ℕ → Option Text → List Text
unfolding lsh_candidates anchor_candidates text_eq
candidates h q lsh index df rare_df own =
    let found = lsh_candidates h q.minhash lsh ++ anchor_candidates q index df rare_df in
    elim own [ none ↦ found | some a ↦ keep_if (λ x. not (text_eq x a)) found ]
