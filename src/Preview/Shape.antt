-- ===== src/Preview/Shape.antt =====
-- What the preview of src/ida_multi_mcp/server.py keeps of a value.
use ida_multi_mcp.Prelude.{
  ℕ, zero, suc, ◌+◌, ◌≡◌, refl, Bool, true, false, ◌&&◌, ℤ, clip, text_eq, text_eq_refl, length,
  leb, ltb, if◌then◌else◌, arith, if-cases,
}
use ida_multi_mcp.Json.{
  Json, null, boolean, number, string, array, object, Items, no_items, item, Members, no_members,
  member, json_text,
}
use ida_multi_mcp.Preview.{fill, cut, preview, truncate, truncate_items, truncate_members}

abbrev same_bool : Bool → Bool → Bool
same_bool true b = b
same_bool false true = false
same_bool false false = true

-- Whether the second value fits any schema of types that the first one fits: at each place it has
-- the same type; its lists may end earlier, its texts may be others, its dicts have the same keys.
unfoldable mutual
  unfolding text_eq

  pub keeps : Json → Json → Bool
  keeps null null = true
  keeps (boolean a) (boolean b) = same_bool a b
  keeps (number s) (number t) = text_eq s t
  keeps (string s) (string t) = true
  keeps (array is) (array js) = keeps_items is js
  keeps (object ms) (object ns) = keeps_members ms ns
  keeps _ _ = false

  pub keeps_items : Items → Items → Bool
  keeps_items no_items no_items = true
  keeps_items no_items (item w js) = false
  keeps_items (item v is) no_items = true
  keeps_items (item v is) (item w js) = keeps v w && keeps_items is js

  pub keeps_members : Members → Members → Bool
  keeps_members no_members no_members = true
  keeps_members no_members (member j w ns) = false
  keeps_members (member k v ms) no_members = false
  keeps_members (member k v ms) (member j w ns) = text_eq k j && (keeps v w && keeps_members ms ns)

mutual
  unfolding keeps keeps_items keeps_members

  keeps_refl : (v : Json) → keeps v v ≡ true
  keeps_refl null = refl
  keeps_refl (boolean true) = refl
  keeps_refl (boolean false) = refl
  keeps_refl (number t) = text_eq_refl t
  keeps_refl (string t) = refl
  keeps_refl (array is) = keeps_items_refl is
  keeps_refl (object ms) = keeps_members_refl ms

  keeps_items_refl : (is : Items) → keeps_items is is ≡ true
  keeps_items_refl no_items = refl
  keeps_items_refl (item v is) = ground (arith, keeps_refl v, keeps_items_refl is)

  keeps_members_refl : (ms : Members) → keeps_members ms ms ≡ true
  keeps_members_refl no_members = refl
  keeps_members_refl (member k v ms) =
      ground (arith, text_eq_refl k, keeps_refl v, keeps_members_refl ms)

mutual
  unfolding keeps keeps_items keeps_members truncate truncate_items truncate_members

  keeps-truncate : (depth : ℕ) (v : Json) → keeps v (truncate depth v) ≡ true
  keeps-truncate depth null = refl
  keeps-truncate depth (boolean b) = keeps_refl (boolean b)
  keeps-truncate depth (number t) = text_eq_refl t
  keeps-truncate depth (string t) =
      if-cases (λ w. keeps (string t) w ≡ true) (ltb 6 depth) (λ e. refl) (λ e. refl)
  keeps-truncate depth (array is) =
      if-cases (λ w. keeps (array is) w ≡ true) (ltb 6 depth) (λ e. keeps_items_refl is)
        (λ e. keeps_items-truncate 50 (suc depth) is)
  keeps-truncate depth (object ms) =
      if-cases (λ w. keeps (object ms) w ≡ true) (ltb 6 depth) (λ e. keeps_members_refl ms)
        (λ e. keeps_members-truncate (suc depth) ms)

  keeps_items-truncate :
      (n depth : ℕ) (is : Items) → keeps_items is (truncate_items n depth is) ≡ true
  keeps_items-truncate n depth no_items = refl
  keeps_items-truncate zero depth (item v is) = refl
  keeps_items-truncate (suc n) depth (item v is) =
      ground (arith, keeps-truncate depth v, keeps_items-truncate n depth is)

  keeps_members-truncate :
      (depth : ℕ) (ms : Members) → keeps_members ms (truncate_members depth ms) ≡ true
  keeps_members-truncate depth no_members = refl
  keeps_members-truncate depth (member k v ms) =
      ground (arith, text_eq_refl k, keeps-truncate depth v, keeps_members-truncate depth ms)

keeps_items-fill :
    (max_chars used : ℕ) (out : Bool) (is : Items)
    → keeps_items is (fill max_chars used out is) ≡ true
unfolding keeps_items fill
keeps_items-fill max_chars used out no_items = refl
keeps_items-fill max_chars used out (item v is) =
    let used' = used + (length (json_text v) + (if out then 1 else 0)) in
    if-cases (λ js. keeps_items (item v is) js ≡ true) (ltb max_chars used') (λ e. refl)
      (λ e. ground (arith, keeps_refl v, keeps_items-fill max_chars used' true is))

keeps-cut : (v : Json) (max_chars : ℕ) → keeps v (cut v max_chars) ≡ true
unfolding keeps cut
keeps-cut null max_chars = refl
keeps-cut (boolean b) max_chars = keeps_refl (boolean b)
keeps-cut (number t) max_chars = text_eq_refl t
keeps-cut (string t) max_chars = refl
keeps-cut (array is) max_chars = keeps_items-fill max_chars 2 false is
keeps-cut (object ms) max_chars = keeps-truncate 0 (object ms)

-- The preview of any value has the same JSON type at every place that it still has, dicts keep all
-- of their keys in order, and numbers, booleans and null are unchanged; a value that fits into
-- `max_chars` characters is its own preview.
pub keeps-preview :
    (v : Json) (max_chars : ℤ)
    → (keeps v (preview v max_chars) ≡ true)
      × (leb (length (json_text v)) (clip max_chars) ≡ true → preview v max_chars ≡ v)
unfolding preview
keeps-preview v max_chars = (
  if-cases (λ w. keeps v w ≡ true) (leb (clip max_chars) 0) (λ e. keeps_refl v)
      (λ e.
        if-cases (λ w. keeps v w ≡ true) (leb (length (json_text v)) (clip max_chars))
          (λ f. keeps_refl v) (λ f. keeps-cut v (clip max_chars))),
  λ fits.
      if-cases (λ w. w ≡ v) (leb (clip max_chars) 0) (λ e. refl)
        (λ e.
          if-cases (λ w. w ≡ v) (leb (length (json_text v)) (clip max_chars)) (λ f. refl)
            (λ f. absurd (ground arith))),
)
