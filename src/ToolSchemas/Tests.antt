-- ===== src/ToolSchemas/Tests.antt =====
-- A tool that returns a list, in the tool cache of src/ida_multi_mcp/server.py.
use ida_multi_mcp.Prelude.{
  text_eq, text_in, insert, ◌≡◌, refl, true, false, [], ◌∷◌, some, text, Dict, lookup, contains,
  or_default,
}
use ida_multi_mcp.Json.{
  set_member, Json, null, string, array, object, no_items, item, Members, no_members, member,
  member_of,
}
use ida_multi_mcp.ToolSchemas.{
  get_true, is_text, is_true, has_object_type, coerce_structured, unwrapped,
}
use ida_multi_mcp.ToolSchemas.Building.{
  add_tools, add_tool, first_answer, advertise_all, advertise_output, require_instance_id,
  with_property, with_required, describe, addition, append_description, has_instance_id,
  append_item, advertise, build_tool_cache, result_object,
}
use ida_multi_mcp.ToolSchemas.Asks.{asks_instance_id}
use ida_multi_mcp.ToolSchemas.Advertised.{promises_object, build_tool_cache-AllAdvertised}
use ida_multi_mcp.ToolSchemas.Coercion.{coerce_structured-advertise}

-- `{"type": "array"}`
abbrev list_schema : Members
list_schema = member (text "type") (string (text "array")) no_members

abbrev callees : Members
callees =
    member (text "name") (string (text "callees"))
      (member (text "outputSchema") (object list_schema) no_members)

abbrev one_result : Json
one_result = array (item (string (text "sub_401000")) no_items)

-- What the cache has when the bundled file names the tool and no instance answers.
abbrev advertised_callees : Members
advertised_callees = member (text "name") (string (text "callees")) (
    member (text "outputSchema") (object (result_object (object list_schema))) (
      member (text "inputSchema")
        (object (
          member (text "properties")
            (object (
              member (text "instance_id")
                (object (
                  member (text "type") (string (text "string")) (
                    member (text "description") (string (text "Target IDA instance ID (required)"))
                      no_members)))
                no_members))
            (member (text "required") (array (item (string (text "instance_id")) no_items))
              no_members)))
        no_members))

abbrev built : Dict Members
built = (text "callees", advertised_callees) ∷ []

built-cache : build_tool_cache [] (callees ∷ []) ([] ∷ []) ≡ some built
unfolding build_tool_cache add_tools add_tool first_answer advertise_all advertise advertise_output
    is_true has_object_type set_member member_of require_instance_id get_true with_property
    with_required describe addition append_description insert is_text text_eq text_in
    has_instance_id append_item
built-cache = refl

built-callees : lookup (text "callees") built ≡ some advertised_callees
unfolding lookup text_eq
built-callees = refl

build_tool_cache-AllAdvertised_example :
    (promises_object advertised_callees ≡ true)
    × (contains {V = Members} (text "callees") [] ≡ false
        → asks_instance_id advertised_callees ≡ true)
build_tool_cache-AllAdvertised_example =
    build_tool_cache-AllAdvertised [] (callees ∷ []) ([] ∷ []) built (text "callees")
      advertised_callees built-cache built-callees

callees-output : member_of (text "outputSchema") callees ≡ some (object list_schema)
unfolding member_of text_eq
callees-output = refl

list_schema-true : is_true (object list_schema) ≡ true
unfolding is_true
list_schema-true = refl

list_schema-untyped : has_object_type list_schema ≡ false
unfolding has_object_type member_of is_text text_eq
list_schema-untyped = refl

coerce_structured-advertise_example :
    (s' : Members) × (advertise callees ≡ some s')
    × (unwrapped
          (coerce_structured (or_default (member_of (text "outputSchema") s') null) one_result)
        ≡ some (coerce_structured null one_result))
coerce_structured-advertise_example =
    coerce_structured-advertise callees list_schema one_result callees-output list_schema-true
      list_schema-untyped
