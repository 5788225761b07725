-- ===== src/Preview.antt =====
-- `_schema_preserving_preview` of src/ida_multi_mcp/server.py: what a client gets of a result that is
-- too long. `json.dumps` does not fail on what `json.loads` has read.
pub mod Shape
mod Longest
mod Tests
use ida_multi_mcp.Prelude.{
  ℕ, zero, suc, ◌+◌, ◌/◌, ◌%◌, Bool, true, false, [], ◌∷◌, ◌++◌, ℤ, pos, clip, Text, text, take,
  length, leb, ltb, if◌then◌else◌,
}
use ida_multi_mcp.Json.{
  Json, null, boolean, number, string, array, object, Items, no_items, item, Members, no_members,
  member, json_text,
}

-- The decimal digits of a number; `fuel` is at least their count.
unfoldable pub digits : ℕ → ℕ → Text
digits zero n = []
digits (suc fuel) n =
    let higher = digits fuel (n / 10) in
    if ltb n 10 then (b'0' + n) ∷ [] else higher ++ (b'0' + n % 10) ∷ []

-- The loop over a list: `used` characters are taken, and whether `out` has an item.
unfoldable pub fill : ℕ → ℕ → Bool → Items → Items
fill max_chars used out no_items = no_items
fill max_chars used out (item v is) =
    let used' = used + (length (json_text v) + (if out then 1 else 0)) in
    let rest = fill max_chars used' true is in if ltb max_chars used' then no_items else item v rest

-- `v[:1000] + f"... [{len(v)} chars total]"`, where `v` is longer than that
unfoldable pub shorten : Text → Text
unfolding digits
shorten t =
    if ltb 1000 (length t)
    then take 1000 t ++ (text "... [" ++ (digits 20 (length t) ++ text " chars total]"))
    else t

-- `_truncate`, for a value, the items that are left of `v[:50]`, and the members of a dict
unfoldable mutual
  unfolding shorten

  pub truncate : ℕ → Json → Json
  truncate depth null = null
  truncate depth (boolean b) = boolean b
  truncate depth (number t) = number t
  truncate depth (string t) = if ltb 6 depth then string t else string (shorten t)
  truncate depth (array is) =
      if ltb 6 depth then array is else array (truncate_items 50 (suc depth) is)
  truncate depth (object ms) =
      if ltb 6 depth then object ms else object (truncate_members (suc depth) ms)

  pub truncate_items : ℕ → ℕ → Items → Items
  truncate_items n depth no_items = no_items
  truncate_items zero depth (item v is) = no_items
  truncate_items (suc n) depth (item v is) = item (truncate depth v) (truncate_items n depth is)

  pub truncate_members : ℕ → Members → Members
  truncate_members depth no_members = no_members
  truncate_members depth (member k v ms) = member k (truncate depth v) (truncate_members depth ms)

-- What is done to a value that is too long.
unfoldable pub cut : Json → ℕ → Json
unfolding fill truncate
cut (string t) max_chars = string (take max_chars t)
cut (array is) max_chars = array (fill max_chars 2 false is)
cut (object ms) max_chars = truncate 0 (object ms)
cut null max_chars = null
cut (boolean b) max_chars = boolean b
cut (number t) max_chars = number t

-- `_schema_preserving_preview`
unfoldable pub preview : Json → ℤ → Json
unfolding cut
preview value max_chars =
    if leb (clip max_chars) 0
    then value
    else if leb (length (json_text value)) (clip max_chars)
    then value
    else cut value (clip max_chars)
