-- ===== src/Export/Paging.antt =====
-- The pages that src/ida_multi_mcp/server.py asks for, answered by `paginate` of
-- src/ida_multi_mcp/ida_mcp/utils.py.
use mathlib.Core.List.{append-nil, append_assoc}
use native.Mathlib.Nat.{suc-mul}
use ida_multi_mcp.Prelude.{
  ℕ, zero, suc, ◌+◌, ◌*◌, ◌≤◌, ◌<◌, ◌≡◌, refl, sym, ap, ◌∙◌, true, false, List, [], ◌∷◌, ◌++◌,
  Option, none, some, pos, Text, length, take, drop, ltb, leb, ◌==◌, arith, length-take,
  length-drop, take-append-drop, drop-drop, take_of_length-le, Bool-cases, Option-cases, inl, inr,
}
use ida_multi_mcp.Export.{
  after_page, paginate, Function, ListReply, page, Collected, Result, ok, add_functions, collect,
}

-- The addresses in a list of functions, in order.
abbrev pub addresses : List Function → List Text
addresses [] = []
addresses (f ∷ fs) = elim f.addr [ none ↦ addresses fs | some a ↦ a ∷ addresses fs ]

add_functions-append :
    (xs ys : List Function) (c : Collected)
    → add_functions (xs ++ ys) c ≡ add_functions ys (add_functions xs c)
unfolding add_functions
add_functions-append [] ys c = refl
add_functions-append (x ∷ xs) ys c = add_functions-append xs ys _

round_more : (fuel size : ℕ) → suc fuel * size ≡ fuel * size + size
round_more fuel size = omega (arith, suc-mul fuel size)

round_left : (fuel size : ℕ) → 0 < fuel * size → 0 < fuel
round_left zero size h = absurd (omega (arith, h))
round_left (suc fuel) size h = omega arith

module _ (size : ℕ) (fs : List Function) where
  -- An instance that has these functions, unfiltered, throughout the export.
  abbrev pub answers : ℕ → ListReply
  answers offset = page (paginate fs (pos offset) (pos size))

  paginate-last :
      (offset : ℕ)
      → 0 < size
      → length fs ≤ offset + size
      → paginate fs (pos offset) (pos size) ≡ record { items = drop offset fs; next_offset = none }
  unfolding paginate
  paginate-last offset h last =
      let e : (size == 0) ≡ false = ground arith in
      let l : leb (length fs) (offset + size) ≡ true = ground arith in
      let t =
        take_of_length-le size (drop offset fs) (omega (arith, length-drop offset fs, last)) in
      rw (e, l, t) refl

  paginate-more :
      (offset : ℕ)
      → 0 < size
      → offset + size < length fs
      → paginate fs (pos offset) (pos size)
        ≡ record { items = take size (drop offset fs); next_offset = some (offset + size) }
  unfolding paginate
  paginate-more offset h more =
      let e : (size == 0) ≡ false = ground arith in
      let l : leb (length fs) (offset + size) ≡ false = ground arith in rw (e, l) refl

  after_page-end :
      (xs : List Function) (rest : ℕ → Collected → Option (Result Collected)) (c : Collected)
      → after_page size (record { items = xs; next_offset = none }) rest c
        ≡ some (ok (add_functions xs c))
  unfolding after_page add_functions
  after_page-end [] rest c = refl
  after_page-end (x ∷ xs) rest c = refl

  after_page-next :
      (xs : List Function) (next : ℕ) (rest : ℕ → Collected → Option (Result Collected))
      (c : Collected)
      → 0 < size
      → length xs ≡ size
      → after_page size (record { items = xs; next_offset = some next }) rest c
        ≡ rest next (add_functions xs c)
  unfolding after_page
  after_page-next [] next rest c h l = absurd (omega (arith, h, l))
  after_page-next (x ∷ xs) next rest c h l =
      let full : ltb (length (x ∷ xs)) size ≡ false = ground arith in rw full refl

  -- The loop takes in all functions from its offset on.
  collect-from :
      (fuel offset : ℕ) (c : Collected)
      → 0 < size
      → offset ≤ length fs
      → 0 < fuel
      → length fs ≤ offset + fuel * size
      → collect size answers fuel offset c ≡ some (ok (add_functions (drop offset fs) c))
  unfolding collect
  collect-from zero offset c h in_range some_fuel enough = absurd (omega arith)
  collect-from (suc fuel) offset c h in_range some_fuel enough =
      let rest = λ (next : ℕ) (c' : Collected). collect size answers fuel next c' in
      elim (Bool-cases (leb (length fs) (offset + size))) [
        | inl last ↦
            let p = paginate-last offset h (ground arith) in
            ap (λ q. after_page size q rest c) p ∙ after_page-end (drop offset fs) rest c
        | inr more ↦
            let longer : offset + size < length fs = ground arith in
            let xs = take size (drop offset fs) in
            let p = paginate-more offset h longer in
            let full : length xs ≡ size =
              omega (arith, length-take size (drop offset fs), length-drop offset fs, longer) in
            let fits : length fs ≤ offset + size + fuel * size =
              omega (arith, enough, round_more fuel size) in
            let positive = round_left fuel size (omega (arith, fits, longer)) in
            let joined = take-append-drop size (drop offset fs) in
            let behind = drop-drop size offset fs in
            ap (λ q. after_page size q rest c) p
            ∙ after_page-next xs (offset + size) rest c h full
            ∙ collect-from fuel (offset + size) (add_functions xs c) h (ground arith) positive fits
            ∙ ap (λ l. some (ok (add_functions l (add_functions xs c)))) (sym behind)
            ∙ ap (λ d. some (ok d)) (sym (add_functions-append xs (drop size (drop offset fs)) c))
            ∙ ap (λ l. some (ok (add_functions l c))) joined
      ]

addresses-add :
    (fs : List Function) (c : Collected) → (add_functions fs c).addrs ≡ c.addrs ++ addresses fs
unfolding add_functions
addresses-add [] c = sym (append-nil c.addrs)
addresses-add (f ∷ fs) c = elim (Option-cases f.addr) [
  | inl e ↦ rw e (addresses-add fs c)
  | inr (a, e) ↦ rw e (addresses-add fs _ ∙ append_assoc c.addrs (a ∷ []) (addresses fs))
]

-- Asked in pages of a positive size, an instance with a fixed list of functions is asked for all of
-- them: within the rounds that its pages need, and one at least, the loop ends without an error and has
-- the address of each function that has one, in the order of the list and as often as it is there.
pub collect-answers :
    (size : ℕ) (fs : List Function) (fuel : ℕ)
    → 0 < size
    → 0 < fuel
    → length fs ≤ fuel * size
    → (c : Collected) × (collect size
          (answers size fs)
          fuel
          0
          (record { addrs = []; addr_names = [] })
        ≡ some (ok c))
      × (c.addrs ≡ addresses fs)
collect-answers size fs fuel h some_fuel enough =
    let start : Collected = record { addrs = []; addr_names = [] } in
    (
      add_functions fs start,
      collect-from size fs fuel 0 start h (omega arith) some_fuel (omega (arith, enough)),
      addresses-add fs start,
    )
