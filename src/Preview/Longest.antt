-- ===== src/Preview/Longest.antt =====
-- The preview of a list by src/ida_multi_mcp/server.py is the longest prefix that fits.
use ida_multi_mcp.Prelude.{
  ℕ, zero, suc, ◌+◌, ◌≤◌, ◌≡◌, refl, sym, ap, Bool, true, false, pos, length, leb, ltb,
  if◌then◌else◌, arith, length-append, Bool-cases, inl, inr, leb→le, ltb→lt,
}
use ida_multi_mcp.Json.{
  Json, array, Items, no_items, item, json_text, items_text, more_items, take_items, count_items,
}
use ida_multi_mcp.Preview.{fill, cut, preview}

-- How many characters the loop counts for items behind others, or for the first ones.
abbrev weight : Bool → Items → ℕ
weight true is = length (more_items is)
weight false is = length (items_text is)

weight-item :
    (out : Bool) (v : Json) (is : Items)
    → weight out (item v is)
      ≡ length (json_text v) + (if out then 1 else 0) + length (more_items is)
unfolding items_text more_items
weight-item true v is = omega (arith, length-append (json_text v) (more_items is))
weight-item false v is = omega (arith, length-append (json_text v) (more_items is))

weight-none : (out : Bool) → weight out no_items ≡ 1
unfolding items_text more_items
weight-none true = refl
weight-none false = refl

weight-some : (out : Bool) (is : Items) → 1 ≤ weight out is
weight-some out no_items = omega (arith, weight-none out)
weight-some out (item v is) = omega (arith, weight-item out v is, weight-some true is)

module _ (max_chars : ℕ) where
  -- The loop takes some number of items, and these fit.
  fill-take :
      (used : ℕ) (out : Bool) (is : Items)
      → fill max_chars used out is ≡ take_items (count_items (fill max_chars used out is)) is
  unfolding fill take_items count_items
  fill-take used out no_items = refl
  fill-take used out (item v is) =
      let used' = used + (length (json_text v) + (if out then 1 else 0)) in
      elim (Bool-cases (ltb max_chars used')) [
        | inl e ↦ rw e refl
        | inr e ↦ rw e (ap (item v) (fill-take used' true is))
      ]

  fill-fits :
      (used : ℕ) (out : Bool) (is : Items)
      → used ≤ max_chars
      → used + weight out (fill max_chars used out is) ≤ suc max_chars
  unfolding fill
  fill-fits used out no_items h = omega (arith, weight-none out)
  fill-fits used out (item v is) h =
      let used' = used + (length (json_text v) + (if out then 1 else 0)) in
      let rest = fill max_chars used' true is in
      elim (Bool-cases (ltb max_chars used')) [
        | inl e ↦ rw e (omega (arith, weight-none out))
        | inr e ↦
            let ih = fill-fits used' true is (ground arith) in
            rw e (omega (arith, ih, weight-item out v rest))
      ]

  fill-longest :
      (used : ℕ) (out : Bool) (is : Items) (n : ℕ)
      → used + weight out (take_items n is) ≤ suc max_chars
      → take_items n (fill max_chars used out is) ≡ take_items n is
  unfolding fill take_items
  fill-longest used out no_items n h = refl
  fill-longest used out (item v is) zero h =
      let used' = used + (length (json_text v) + (if out then 1 else 0)) in
      elim (Bool-cases (ltb max_chars used')) [ inl e ↦ rw e refl | inr e ↦ rw e refl ]
  fill-longest used out (item v is) (suc n) h =
      let used' = used + (length (json_text v) + (if out then 1 else 0)) in
      let w = weight-item out v (take_items n is) in
      let s = weight-some true (take_items n is) in
      elim (Bool-cases (ltb max_chars used')) [
        | inl e ↦ absurd (let l = ltb→lt max_chars used' e in omega (arith, h, w, s, l))
        | inr e ↦ rw e (ap (item v) (fill-longest used' true is n (omega (arith, h, w))))
      ]

take_items-all : (is : Items) → take_items (count_items is) is ≡ is
unfolding take_items count_items
take_items-all no_items = refl
take_items-all (item v is) = ap (item v) (take_items-all is)

-- If `max_chars` is at least two, the preview of a list is a prefix of it that fits into `max_chars`
-- characters as JSON, and no longer prefix does: one that fits is a prefix of the preview.
pub preview-longest :
    (is : Items) (max_chars : ℕ)
    → 2 ≤ max_chars
    → (k : ℕ) × (preview (array is) (pos max_chars) ≡ array (take_items k is))
      × (length (json_text (array (take_items k is))) ≤ max_chars)
      × ((n : ℕ)
          → length (json_text (array (take_items n is))) ≤ max_chars
          → take_items n (take_items k is) ≡ take_items n is)
unfolding preview cut json_text
preview-longest is max_chars h = elim (Bool-cases (leb (length (json_text (array is))) max_chars)) [
  | inl e ↦
      let all = take_items-all is in
      (
        count_items is,
        rw (e, all) (ground arith),
        rw all (leb→le _ max_chars e),
        λ n fits. ap (take_items n) all,
      )
  | inr e ↦
      let r = fill max_chars 2 false is in
      let k = count_items r in
      let taken = fill-take max_chars 2 false is in
      let fits = fill-fits max_chars 2 false is h in
      (
        k,
        rw (e, sym taken) (ground arith),
        rw (sym taken) (omega (arith, fits)),
        λ n f. rw (sym taken) (fill-longest max_chars 2 false is n (omega (arith, f))),
      )
]
