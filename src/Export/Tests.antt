-- ===== src/Export/Tests.antt =====
-- A small export by src/ida_multi_mcp/server.py, and a listing of three functions in pages of two.
use ida_multi_mcp.Prelude.{
  true, length, ℕ, ◌≡◌, refl, false, List, [], ◌∷◌, none, some, Text, text, arith, text_eq, text_in,
  lookup, if◌then◌else◌,
}
use ida_multi_mcp.ToolSchemas.{starts_with}
use ida_multi_mcp.Export.{
  page_size, Function, ListReply, nothing, Collected, ok, collect, Decompiled, file_name, is_in,
  join, name_for, replace_reserved, replace_dots, address_suffix, substitute, write_one,
  write_single,
}
use ida_multi_mcp.Export.Run.{Request, Report, check_dir, write_files, decompile_to_file}
use ida_multi_mcp.Export.Paging.{addresses, answers, collect-answers}
use ida_multi_mcp.Export.Complete.{decompile_to_file-some}
use ida_multi_mcp.Export.Confined.{Confined, decompile_to_file-Confined}

abbrev function_at : Text → Text → Function
function_at addr name = record { addr = some addr; name = some name }

abbrev three_functions : List Function
three_functions =
    function_at (text "0x10") (text "main")
    ∷ function_at (text "0x20") (text "start")
    ∷ function_at (text "0x30") (text "exit")
    ∷ []

collect-answers_example :
    (c : Collected) × (collect 2
        (answers 2 three_functions)
        2
        0
        (record { addrs = []; addr_names = [] })
      ≡ some (ok c))
    × (c.addrs ≡ addresses three_functions)
collect-answers_example =
    collect-answers 2 three_functions 2 (omega arith) (omega arith) (omega arith)

hostile-name : file_name (text "../a:b..c") (text "0x10") ≡ text "__a_b_c_0x10.c"
unfolding file_name replace_reserved replace_dots address_suffix substitute is_in
hostile-name = refl

-- One function decompiles, the other does not.
unfoldable decompiled : Text → Decompiled
unfolding text_eq
decompiled addr = record {
  code = if text_eq addr (text "0x10") then some (text "int f;") else none;
  name = some (text "..");
}

abbrev request : Request
request = record {
  instance_id = some (text "aaaa");
  all = false;
  addrs = text "0x10" ∷ text "0x20" ∷ [];
  merged = false;
  allow_outside_cwd = false;
  resolved_dir = text "/w/out";
  normal_parts = text "out" ∷ [];
  cwd = text "/w";
}

abbrev nothing_listed : ℕ → ListReply
nothing_listed offset = nothing

abbrev one_report : Report
one_report = record {
  output_dir = text "/w/out";
  total = 2;
  success = 1;
  failed = 1;
  failed_addrs = text "0x20" ∷ [];
  files = text "__0x10.c" ∷ [];
  files_total = 1;
  writes = (text "/w/out/__0x10.c", text "// .. @ 0x10\nint f;\n") ∷ [];
}

request-report : decompile_to_file nothing_listed decompiled 0 request ≡ some (ok one_report)
unfolding decompiled decompile_to_file check_dir write_files write_single write_one name_for
    file_name join replace_reserved replace_dots address_suffix substitute is_in starts_with text_eq
    text_in lookup
request-report = refl

decompile_to_file-Confined_example : Confined request one_report
decompile_to_file-Confined_example =
    decompile_to_file-Confined nothing_listed decompiled 0 request one_report request-report

abbrev full_request : Request
full_request = record request { all = true }

full_request-allowed : check_dir full_request ≡ ok full_request.resolved_dir
unfolding check_dir text_in text_eq starts_with
full_request-allowed = refl

decompile_to_file-some_example :
    (rep : Report) × (decompile_to_file
        (answers page_size three_functions)
        decompiled
        1
        full_request
      ≡ some (ok rep))
    × (rep.total ≡ length (addresses three_functions))
decompile_to_file-some_example =
    decompile_to_file-some three_functions decompiled 1 full_request refl refl full_request-allowed
      (omega arith) (omega arith) (omega arith)
