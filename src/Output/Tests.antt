-- ===== src/Output/Tests.antt =====
-- A long answer of a tool through `custom_tools_call` of src/ida_multi_mcp/server.py.
use ida_multi_mcp.Prelude.{refl, true, false, [], Option, none, pos, Text, text, arith}
use ida_multi_mcp.Json.{Json, string, array, no_items, item}
use ida_multi_mcp.Cache.{ResponseCache}
use ida_multi_mcp.Cache.Bounds.{IsValid}
use ida_multi_mcp.ToolSchemas.{coerce_structured, output_schema}
use ida_multi_mcp.Output.{
  Envelope, envelope, format_reply, structured_of, content_or_text, analysis_note,
}
use ida_multi_mcp.Output.Truncation.{Answered, format_reply-Answered}

abbrev empty_cache : ResponseCache
empty_cache = record { max_entries = 2; ttl_seconds = 600; cache = [] }

empty_cache-IsValid : IsValid empty_cache
empty_cache-IsValid = record { distinct = tt; bounded = omega arith }

-- `["main","start"]`, 16 characters
abbrev two_names : Json
two_names = array (item (string (text "main")) (item (string (text "start")) no_items))

abbrev answer : Envelope
answer = record { content = no_items; is_error = false; structured = two_names }

abbrev no_parser : Text → Option Json
no_parser t = none

format_reply-Answered_example :
    let s =
      coerce_structured (output_schema [] (text "list_funcs")) (structured_of no_parser answer) in
    Answered 10 empty_cache 5
      (text "c1")
      s
      (content_or_text no_items s)
      (analysis_note (text "list_funcs") true)
      (format_reply no_parser [] empty_cache 5
        (text "c1")
        (text "list_funcs")
        none
        (pos 10)
        true
        (envelope answer))
format_reply-Answered_example =
    format_reply-Answered no_parser [] empty_cache 5 (text "c1") (text "list_funcs") none (pos 10)
      true answer empty_cache-IsValid (omega arith) refl
