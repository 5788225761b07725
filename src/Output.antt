-- ===== src/Output.antt =====
-- `custom_tools_call` of src/ida_multi_mcp/server.py, for the tools that run in IDA, from the reply
-- of the router on; the tool cache, the response cache, the clock and the fresh id are arguments, and
-- so are `json.loads`, the answer of `_analysis_incomplete`, and the limit, a number. The "content"
-- of a reply is a list, if it has one.
mod Truncation
mod Tests
use ida_multi_mcp.Prelude.{
  ℕ, zero, suc, ◌+◌, ◌-◌, ◌%◌, Bool, true, false, ◌&&◌, ◌||◌, List, [], ◌∷◌, ◌++◌, Option, none,
  some, ℤ, clip, Text, text, text_in, Dict, length, take, ltb, leb, ◌==◌, or_default, if◌then◌else◌,
}
use ida_multi_mcp.Json.{
  Json, null, string, array, object, Items, no_items, item, Members, no_members, member, member_of,
  json_text,
}
use ida_multi_mcp.Cache.{ResponseCache, Result, ok, raise, store}
use ida_multi_mcp.Preview.{preview, digits}
use ida_multi_mcp.ToolSchemas.{coerce_structured, output_schema}

-- The reply of `route_request`: a dict with "error", as JSON, or an envelope, whose absent
-- "structuredContent" is null.
pub record Envelope : Type 0 where
  pub content : Items
  pub is_error : Bool
  pub structured : Json

pub data Reply : Type 0 where
  failure : Json → Reply
  envelope : Envelope → Reply

-- What `custom_tools_call` returns.
pub record ToolResult : Type 0 where
  pub content : Items
  pub structured : Option Json
  pub is_error : Bool

abbrev pub text_item : Text → Json
text_item t =
    object
      (member (text "type") (string (text "text")) (member (text "text") (string t) no_members))

unfoldable pub append_items : Items → Items → Items
append_items no_items js = js
append_items (item v is) js = item v (append_items is js)

-- `_ANALYSIS_SENSITIVE_TOOLS`
abbrev pub analysis_sensitive_tools : List Text
analysis_sensitive_tools =
    text "list_funcs"
    ∷ text "func_query"
    ∷ text "func_profile"
    ∷ text "classify_functions"
    ∷ text "lookup_funcs"
    ∷ text "export_funcs"
    ∷ text "list_globals"
    ∷ text "survey_binary"
    ∷ text "callgraph"
    ∷ text "callees"
    ∷ text "xrefs_to"
    ∷ text "xrefs_from"
    ∷ text "xrefs_to_field"
    ∷ text "analyze_component"
    ∷ text "analyze_batch"
    ∷ text "index_functions"
    ∷ text "similar_functions"
    ∷ []

unfoldable pub warning_text : Text
warning_text =
    b'\n' ∷ text "[ida-multi-mcp] WARNING: IDA auto-analysis has NOT finished on "
    ++ text "this instance. Functions, xrefs, strings and decompiler output are "
    ++ text "incomplete, and this result is very likely missing data. Call "
    ++ text "analysis_wait(instance_id=...) and then repeat this call before "
    ++ text "drawing any conclusions."

-- `analysis_note`
unfoldable pub analysis_note : Text → Bool → Items
unfolding text_in warning_text
analysis_note name incomplete =
    if text_in name analysis_sensitive_tools && incomplete
    then item (text_item warning_text) no_items
    else no_items

-- `json.loads(content[0].get("text", ""))`, or `None` where that fails
abbrev pub text_of_first : Items → Option Text
text_of_first (item (object ms) is) = elim (member_of (text "text") ms) [
  | none ↦ some []
  | some (string t) ↦ some t
  | some v ↦ none
]
text_of_first _ = none

unfoldable pub structured_of : (Text → Option Json) → Envelope → Json
unfolding member_of
structured_of loads e = elim e.structured [
  | null ↦ elim (text_of_first e.content) [ none ↦ null | some t ↦ or_default (loads t) null ]
  | v ↦ v
]

-- `content`, with a readable one where the instance gave none
abbrev pub content_or_text : Items → Json → Items
content_or_text no_items structured = item (text_item (json_text structured)) no_items
content_or_text (item v is) structured = item v is

-- `{"structuredContent": structured} if structured is not None else {}`
abbrev pub unless_null : Json → Option Json
unless_null null = none
unless_null v = some v

-- `f"{n:,}"`, from the digits of `n`
unfoldable pub with_commas : Text → Text
with_commas [] = []
with_commas (c ∷ cs) =
    let rest = with_commas cs in
    if ltb 0 (length cs) && length cs % 3 == 0 then c ∷ b',' ∷ rest else c ∷ rest

-- The lines of `truncation_notice` up to its last one.
unfoldable pub notice_head : ℕ → ℕ → Text → Text
unfolding with_commas digits
notice_head max_output total_chars cache_id =
    let commas = λ (n : ℕ). with_commas (digits 40 n) in
    b'\n' ∷ b'\n' ∷ text "--- TRUNCATED ---"
    ++ (b'\n' ∷ text "Showing ~")
    ++ commas max_output
    ++ text " of "
    ++ commas total_chars
    ++ text " chars ("
    ++ commas (total_chars - max_output)
    ++ text " remaining)"
    ++ (b'\n' ∷ text "cache_id: ")
    ++ cache_id
    ++ (b'\n' ∷ text "To get more: ")

unfoldable pub truncation_notice : ℕ → ℕ → Text → Text
unfolding notice_head digits
truncation_notice max_output total_chars cache_id =
    notice_head max_output total_chars cache_id
    ++ (text "get_cached_output(cache_id='"
        ++ (cache_id ++ (text "', offset=" ++ (digits 40 max_output ++ text ")"))))

-- `arguments.get("instance_id") or "unknown"`
abbrev pub known_instance : Option Text → Text
known_instance (some (c ∷ cs)) = c ∷ cs
known_instance _ = text "unknown"

-- The branch that truncates, once the full text is stored.
abbrev pub truncated : Json → ℕ → ℕ → Items → Result Text → Result ToolResult
truncated structured max_output total_chars note (raise x) = raise x
truncated structured max_output total_chars note (ok cache_id) =
    let shown = preview structured (ℤ.pos max_output) in
    ok (record {
      content =
          item
            (text_item (
              take max_output (json_text shown)
              ++ truncation_notice max_output total_chars cache_id))
            note;
      structured = some shown;
      is_error = false;
    })

-- What follows the coercion of the structured content.
unfoldable pub limit_output :
    ResponseCache
    → ℕ
    → Text
    → Text
    → Option Text
    → ℤ
    → Json
    → Items
    → Items
    → ResponseCache × Result ToolResult
unfolding append_items
limit_output cache now fresh_id name instance_id max_output structured content note =
    let full = json_text structured in
    if ltb 0 (clip max_output) && ltb (clip max_output) (length full)
    then (let (cache', stored) =
          store cache now fresh_id full name (some (known_instance instance_id)) in
        (cache', truncated structured (clip max_output) (length full) note stored))
    else (
      cache,
      ok (record {
        content = append_items content note;
        structured = some structured;
        is_error = false;
      }),
    )

-- The part of `custom_tools_call` behind `route_request`.
unfoldable pub format_reply :
    (Text → Option Json)
    → Dict Members
    → ResponseCache
    → ℕ
    → Text
    → Text
    → Option Text
    → ℤ
    → Bool
    → Reply
    → ResponseCache × Result ToolResult
unfolding structured_of limit_output analysis_note append_items coerce_structured output_schema
format_reply loads tools cache now fresh_id name instance_id max_output incomplete (failure j) = (
  cache,
  ok (record {
    content = item (text_item (text "Error: " ++ json_text j)) no_items;
    structured = none;
    is_error = true;
  }),
)
format_reply loads tools cache now fresh_id name instance_id max_output incomplete (envelope e) =
    let structured = coerce_structured (output_schema tools name) (structured_of loads e) in
    let content = content_or_text e.content structured in
    let note = analysis_note name incomplete in
    if e.is_error
    then (
      cache,
      ok (record {
        content = append_items content note;
        structured = unless_null structured;
        is_error = true;
      }),
    )
    else limit_output cache now fresh_id name instance_id max_output structured content note
