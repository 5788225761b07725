-- ===== src/Preview/Tests.antt =====
-- Previews of src/ida_multi_mcp/server.py at concrete values.
use ida_multi_mcp.Prelude.{ℕ, ◌≤◌, ◌≡◌, refl, true, pos, clip, text, length, leb, arith}
use ida_multi_mcp.Json.{
  items_text, more_items, escape_all, escape, Json, string, number, array, object, Items, no_items,
  item, no_members, member, json_text, take_items,
}
use ida_multi_mcp.Preview.{cut, fill, preview}
use ida_multi_mcp.Preview.Shape.{keeps, keeps-preview}
use ida_multi_mcp.Preview.Longest.{preview-longest}

-- `["abc","de",7]`
abbrev three_items : Items
three_items =
    item (string (text "abc")) (item (string (text "de")) (item (number (text "7")) no_items))

abbrev listing : Json
listing = object (member (text "data") (array three_items) no_members)

three_items-printed : json_text (array three_items) ≡ text "[\"abc\",\"de\",7]"
unfolding json_text items_text more_items escape_all escape
three_items-printed = refl

-- Eight characters have room for the first one only, `["abc"]`.
three_items-preview :
    preview (array three_items) (pos 8) ≡ array (item (string (text "abc")) no_items)
unfolding preview cut fill json_text items_text more_items escape_all escape
three_items-preview = refl

preview-longest_example :
    (k : ℕ) × (preview (array three_items) (pos 8) ≡ array (take_items k three_items))
    × (length (json_text (array (take_items k three_items))) ≤ 8)
    × ((n : ℕ)
        → length (json_text (array (take_items n three_items))) ≤ 8
        → take_items n (take_items k three_items) ≡ take_items n three_items)
preview-longest_example = preview-longest three_items 8 (omega arith)

keeps-preview_example :
    (keeps listing (preview listing (pos 12)) ≡ true)
    × (leb (length (json_text listing)) (clip (pos 12)) ≡ true → preview listing (pos 12) ≡ listing)
keeps-preview_example = keeps-preview listing (pos 12)
