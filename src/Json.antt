-- ===== src/Json.antt =====
-- JSON values as src/ida_multi_mcp/server.py has them after `json.loads`, and `json.dumps` with the
-- separators of its `_json_text`. A number is kept as the text that Python prints for it.
use ida_multi_mcp.Prelude.{
  ℕ, zero, suc, ◌+◌, ◌-◌, ◌/◌, ◌%◌, Bool, true, false, ◌&&◌, [], ◌∷◌, ◌++◌, Option, none, some,
  Text, text, text_eq, get_or, ◌==◌, leb, ltb, if◌then◌else◌,
}

mutual
  pub data Json : Type 0 where
    null : Json
    boolean : Bool → Json
    number : Text → Json
    string : Text → Json
    array : Items → Json
    object : Members → Json

  -- A Python list.
  pub data Items : Type 0 where
    no_items : Items
    item : Json → Items → Items

  -- A Python dict.
  pub data Members : Type 0 where
    no_members : Members
    member : Text → Json → Members → Members

abbrev pub hex_digit : ℕ → ℕ
hex_digit d = get_or (text "0123456789abcdef") (d % 16) 0

-- `\uXXXX`
unfoldable pub unicode_escape : ℕ → Text
unicode_escape c =
    b'\\'
    ∷ b'u'
    ∷ hex_digit (c / 4096)
    ∷ hex_digit (c / 256)
    ∷ hex_digit (c / 16)
    ∷ hex_digit c
    ∷ []

-- What `json.dumps` writes for a character of a text, `ensure_ascii` being on.
unfoldable pub escape : ℕ → Text
unfolding unicode_escape
escape c =
    if c == 34
    then b'\\' ∷ 34 ∷ []
    else if c == 92
    then b'\\' ∷ b'\\' ∷ []
    else if c == 10
    then b'\\' ∷ b'n' ∷ []
    else if c == 13
    then b'\\' ∷ b'r' ∷ []
    else if c == 9
    then b'\\' ∷ b't' ∷ []
    else if c == 12
    then b'\\' ∷ b'f' ∷ []
    else if c == 8
    then b'\\' ∷ b'b' ∷ []
    else if leb 32 c && leb c 126
    then c ∷ []
    else if ltb c 65536
    then unicode_escape c
    else unicode_escape (55296 + (c - 65536) / 1024) ++ unicode_escape (56320 + (c - 65536) % 1024)

unfoldable pub escape_all : Text → Text
unfolding escape
escape_all [] = []
escape_all (c ∷ cs) = escape c ++ escape_all cs

abbrev pub quoted : Text → Text
quoted t = 34 ∷ escape_all t ++ 34 ∷ []

-- `_json_text`; `more_items` and `more_members` write what follows the first one.
unfoldable mutual
  unfolding escape_all

  pub json_text : Json → Text
  json_text null = text "null"
  json_text (boolean true) = text "true"
  json_text (boolean false) = text "false"
  json_text (number t) = t
  json_text (string t) = quoted t
  json_text (array is) = b'[' ∷ items_text is
  json_text (object ms) = b'{' ∷ members_text ms

  pub items_text : Items → Text
  items_text no_items = b']' ∷ []
  items_text (item v is) = json_text v ++ more_items is

  pub more_items : Items → Text
  more_items no_items = b']' ∷ []
  more_items (item v is) = b',' ∷ json_text v ++ more_items is

  pub members_text : Members → Text
  members_text no_members = b'}' ∷ []
  members_text (member k v ms) = quoted k ++ b':' ∷ json_text v ++ more_members ms

  pub more_members : Members → Text
  more_members no_members = b'}' ∷ []
  more_members (member k v ms) = b',' ∷ quoted k ++ b':' ∷ json_text v ++ more_members ms

-- `d.get(k)`
unfoldable pub member_of : Text → Members → Option Json
unfolding text_eq
member_of k no_members = none
member_of k (member j v ms) = if text_eq j k then some v else member_of k ms

-- `d[k] = v`
unfoldable pub set_member : Text → Json → Members → Members
unfolding text_eq
set_member k v no_members = member k v no_members
set_member k v (member j w ms) =
    if text_eq j k then member j v ms else member j w (set_member k v ms)

-- `items[:n]`
unfoldable pub take_items : ℕ → Items → Items
take_items n no_items = no_items
take_items zero (item v is) = no_items
take_items (suc n) (item v is) = item v (take_items n is)

unfoldable pub count_items : Items → ℕ
count_items no_items = 0
count_items (item v is) = suc (count_items is)
