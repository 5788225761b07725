-- ===== src/ToolSchemas/Building.antt =====
-- `_build_tool_cache` of src/ida_multi_mcp/server.py. The schemas of the tools that the server answers
-- itself are an argument, and so is what each instance answers to `tools/list`. An exception is `none`.
use ida_multi_mcp.Prelude.{
  Bool, false, not, ◌||◌, List, [], ◌∷◌, ◌++◌, Option, none, some, Text, text, text_eq, Dict,
  insert, if◌then◌else◌,
}
use ida_multi_mcp.Json.{
  Json, string, array, object, Items, no_items, item, Members, no_members, member, member_of,
  set_member,
}
use ida_multi_mcp.ToolSchemas.{
  get_true, has_object_type, is_text, is_true, starts_with, wrap, ◌>>=◌,
}

-- The schema of the parameter `instance_id`.
abbrev pub instance_id_schema : Json
instance_id_schema = object (
    member (text "type") (string (text "string"))
      (member (text "description") (string (text "Target IDA instance ID (required)")) no_members))

-- `"instance_id" in required`
unfoldable pub has_instance_id : Items → Bool
unfolding is_text
has_instance_id no_items = false
has_instance_id (item v is) = is_text (text "instance_id") v || has_instance_id is

unfoldable pub append_item : Items → Json → Items
append_item no_items w = item w no_items
append_item (item v is) w = item v (append_item is w)

-- `t in s`
unfoldable pub has_part : Text → Text → Bool
unfolding starts_with
has_part t [] = starts_with t []
has_part t (d ∷ s) = starts_with t (d ∷ s) || has_part t s

-- `if "instance_id" not in required: required.append("instance_id")`
unfoldable pub with_required : Json → Option Json
unfolding has_instance_id append_item has_part member_of
with_required (array is) =
    some (array (if has_instance_id is then is else append_item is (string (text "instance_id"))))
with_required (string t) = if has_part (text "instance_id") t then some (string t) else none
with_required (object ms) = elim (member_of (text "instance_id") ms) [
  | some v ↦ some (object ms)
  | none ↦ none
]
with_required _ = none

-- `properties["instance_id"] = {...}`
unfoldable pub with_property : Json → Option Json
unfolding set_member
with_property (object ms) = some (object (set_member (text "instance_id") instance_id_schema ms))
with_property _ = none

-- `v.get`, which only a dict has
abbrev pub as_dict : Json → Option Members
as_dict (object ms) = some ms
as_dict _ = none

-- The loop's part on `instance_id`, for one schema.
unfoldable pub require_instance_id : Members → Option Members
unfolding get_true with_property with_required set_member
require_instance_id schema = do
  input ← as_dict (get_true (text "inputSchema") (object no_members) schema)
  properties ← with_property (get_true (text "properties") (object no_members) input)
  required ← with_required (get_true (text "required") (array no_items) input)
  some (
      set_member (text "inputSchema")
        (object
          (set_member (text "required") required (set_member (text "properties") properties input)))
        schema)

-- The additions to two descriptions.
unfoldable pub single_thread_warning : Text
single_thread_warning =
    text " WARNING: IDA executes on a single main thread. "
    ++ text "Long-running operations will block ALL subsequent requests and make IDA unresponsive."

unfoldable pub addition : Text → Option Text
unfolding text_eq single_thread_warning
addition name =
    if text_eq name (text "py_eval")
    then some (
        single_thread_warning
        ++ text " Do NOT iterate all functions, bulk decompile, or run heavy loops. "
        ++ text "Use decompile_to_file for batch decompilation instead.")
    else if text_eq name (text "list_funcs")
    then some (
        single_thread_warning
        ++ text " For large binaries (100K+ functions), use count/offset pagination. "
        ++ text "Avoid count=0 (all) with glob filters on large binaries.")
    else none

-- `schema.get("description", "") + more`
abbrev pub longer : Text → Option Json → Option Text
longer more none = some more
longer more (some (string t)) = some (t ++ more)
longer more (some v) = none

unfoldable pub append_description : Text → Members → Option Members
unfolding member_of set_member
append_description more schema = do
  t ← longer more (member_of (text "description") schema)
  some (set_member (text "description") (string t) schema)

unfoldable pub describe : Text → Members → Option Members
unfolding addition append_description
describe name schema = elim (addition name) [
  | none ↦ some schema
  | some more ↦ append_description more schema
]

-- `schema["name"]`; a name is a text
abbrev pub name_of : Members → Option Text
name_of schema = elim (member_of (text "name") schema) [ some (string t) ↦ some t | _ ↦ none ]

-- One round of the loops over the tools of IDA.
unfoldable pub add_tool : Dict Members → Members → Option (Dict Members)
unfolding insert member_of require_instance_id describe
add_tool cache tool = do
  schema ← require_instance_id tool
  name ← name_of schema
  described ← describe name schema
  some (insert name described cache)

unfoldable pub add_tools : Dict Members → List Members → Option (Dict Members)
unfolding add_tool
add_tools cache [] = some cache
add_tools cache (t ∷ ts) = add_tool cache t >>= λ cache'. add_tools cache' ts

-- `{"type": "object"}`
abbrev pub bare_object : Members
bare_object = member (text "type") (string (text "object")) no_members

-- `{"type": "object", "properties": {"result": os}, "required": ["result"]}`
abbrev pub result_object : Json → Members
result_object os = member (text "type") (string (text "object")) (
    member (text "properties") (wrap os)
      (member (text "required") (array (item (string (text "result")) no_items)) no_members))

-- The last loop's body, on the output schema; a value that is true and no dict has no `get`.
unfoldable pub advertise_output : Members → Option Json → Option Members
unfolding is_true set_member has_object_type
advertise_output schema none = some (set_member (text "outputSchema") (object bare_object) schema)
advertise_output schema (some (object os)) =
    if not (is_true (object os))
    then some (set_member (text "outputSchema") (object bare_object) schema)
    else if has_object_type os
    then some schema
    else some (set_member (text "outputSchema") (object (result_object (object os))) schema)
advertise_output schema (some v) =
    if is_true v then none else some (set_member (text "outputSchema") (object bare_object) schema)

unfoldable pub advertise : Members → Option Members
unfolding advertise_output member_of
advertise schema = advertise_output schema (member_of (text "outputSchema") schema)

unfoldable pub advertise_all : Dict Members → Option (Dict Members)
unfolding advertise
advertise_all [] = some []
advertise_all ((k, schema) ∷ d) = do
  schema' ← advertise schema
  d' ← advertise_all d
  some ((k, schema') ∷ d')

-- `ida_tools`, from the answers of the instances in the order of their ids; an instance that is gone
-- or does not answer has none
unfoldable pub first_answer : List (List Members) → List Members
first_answer [] = []
first_answer ([] ∷ rest) = first_answer rest
first_answer ((t ∷ ts) ∷ rest) = t ∷ ts

unfoldable pub build_tool_cache :
    Dict Members → List Members → List (List Members) → Option (Dict Members)
unfolding add_tools first_answer advertise_all
build_tool_cache own static answers = do
  cache ← add_tools own static
  cache' ← add_tools cache (first_answer answers)
  advertise_all cache'
