-- ===== src/ToolSchemas.antt =====
-- Output schemas in src/ida_multi_mcp/server.py: how a result is brought to the schema that the tool
-- cache advertises. A dict of JSON has each key once. The tool cache itself is built in Building.
mod Building
mod Asks
mod Advertised
mod Coercion
mod Tests
use ida_multi_mcp.Prelude.{
  ℕ, Bool, true, false, not, ◌&&◌, ◌||◌, List, [], ◌∷◌, ◌++◌, Option, none, some, Text, text,
  text_eq, text_in, Dict, lookup, insert, ◌==◌, if◌then◌else◌,
}
use ida_multi_mcp.Json.{
  Json, null, boolean, number, string, array, object, Items, no_items, item, Members, no_members,
  member, member_of, set_member,
}

infixl 1 ◌>>=◌
abbrev pub ◌>>=◌ {ℓ ℓ'} : {A : Type ℓ} {B : Type ℓ'} → Option A → (A → Option B) → Option B
none >>= f = none
some a >>= f = f a

-- `bool(v)`; numbers that print like this are zero
unfoldable pub is_true : Json → Bool
unfolding text_in
is_true null = false
is_true (boolean b) = b
is_true (number t) = not (text_in t (text "0" ∷ text "0.0" ∷ text "-0.0" ∷ []))
is_true (string []) = false
is_true (string (c ∷ cs)) = true
is_true (array no_items) = false
is_true (array (item v is)) = true
is_true (object no_members) = false
is_true (object (member k v ms)) = true

-- `d.get(k, default) or default`, for a default that is false
unfoldable pub get_true : Text → Json → Members → Json
unfolding is_true member_of
get_true k default ms = elim (member_of k ms) [
  | none ↦ default
  | some v ↦ if is_true v then v else default
]

-- `v == t`, for a text `t`
unfoldable pub is_text : Text → Json → Bool
unfolding text_eq
is_text t (string s) = text_eq s t
is_text t _ = false

-- `d.get("type") == "object"`
unfoldable pub has_object_type : Members → Bool
unfolding member_of is_text
has_object_type ms = elim (member_of (text "type") ms) [
  | none ↦ false
  | some v ↦ is_text (text "object") v
]

-- `set(d.keys()) == {"result"}`
unfoldable pub has_only_result : Members → Bool
unfolding text_eq
has_only_result (member k v no_members) = text_eq k (text "result")
has_only_result _ = false

-- `_is_result_wrapper_schema`
unfoldable pub is_result_wrapper_schema : Json → Bool
unfolding has_object_type has_only_result member_of
is_result_wrapper_schema (object ms) =
    has_object_type ms && elim (member_of (text "properties") ms) [
      | some (object props) ↦ has_only_result props
      | _ ↦ false
    ]
is_result_wrapper_schema _ = false

abbrev pub wrap : Json → Json
wrap v = object (member (text "result") v no_members)

-- `isinstance(structured, dict) and set(structured.keys()) == {"result"}`, with the value inside
unfoldable pub unwrapped : Json → Option Json
unfolding text_eq
unwrapped (object (member k v no_members)) = if text_eq k (text "result") then some v else none
unwrapped _ = none

-- `_coerce_structured_for_schema`; an unknown tool has the schema `None`
unfoldable pub coerce_structured : Json → Json → Json
unfolding is_result_wrapper_schema unwrapped
coerce_structured schema structured =
    if is_result_wrapper_schema schema
    then elim (unwrapped structured) [ some v ↦ structured | none ↦ wrap structured ]
    else elim (unwrapped structured) [ some v ↦ v | none ↦ structured ]

-- `s.startswith(t)`
unfoldable pub starts_with : Text → Text → Bool
starts_with [] s = true
starts_with (c ∷ t) [] = false
starts_with (c ∷ t) (d ∷ s) = c == d && starts_with t s

-- `self._tool_cache.get(tool_name, {}).get("outputSchema")`
unfoldable pub output_schema : Dict Members → Text → Json
unfolding lookup member_of
output_schema cache name = elim (lookup name cache) [
  | none ↦ null
  | some schema ↦ elim (member_of (text "outputSchema") schema) [ none ↦ null | some v ↦ v ]
]
