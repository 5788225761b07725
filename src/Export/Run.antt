-- ===== src/Export/Run.antt =====
-- The whole of `_handle_decompile_to_file` of src/ida_multi_mcp/server.py. The instance decompiles an
-- address to the same text whenever it is asked during the call.
use ida_multi_mcp.Prelude.{
  ℕ, suc, Bool, true, false, not, ◌&&◌, List, [], ◌∷◌, ◌++◌, Option, none, some, Text, text,
  text_eq, text_in, Dict, length, take, if◌then◌else◌,
}
use ida_multi_mcp.ToolSchemas.{starts_with}
use ida_multi_mcp.Export.{
  ListReply, Collected, missing_instance_id, dots_in_path, outside_cwd, no_addresses, no_functions,
  Result, ok, error, page_size, collect, Decompiled, name_for, heading, Progress, skip,
  write_single, join,
}

-- The arguments, with what the operating system makes of `output_dir`: its real path, and the parts
-- of its normal form; and the real path of the current directory.
pub record Request : Type 0 where
  pub instance_id : Option Text
  pub all : Bool
  pub addrs : List Text
  pub merged : Bool
  pub allow_outside_cwd : Bool
  pub resolved_dir : Text
  pub normal_parts : List Text
  pub cwd : Text

-- What is returned, with the files written.
pub record Report : Type 0 where
  pub output_dir : Text
  pub total : ℕ
  pub success : ℕ
  pub failed : ℕ
  pub failed_addrs : List Text
  pub files : List Text
  pub files_total : ℕ
  pub writes : List (Text × Text)

abbrev pub no_progress : Progress
no_progress = record { success = 0; failed = 0; failed_addrs = []; files_written = []; writes = [] }

-- One round in mode "merged"; `body` is what the file has so far.
unfoldable pub merge_one :
    (Text → Decompiled) → Dict Text → Text → Progress × Text → Progress × Text
unfolding name_for
merge_one decompile addr_names addr (p, body) = elim (decompile addr).code [
  | some (c ∷ cs) ↦ (
    record p { success = suc p.success },
    body
        ++ heading (name_for addr_names (decompile addr) addr) addr
        ++ (c ∷ cs)
        ++ b'\n' ∷ b'\n' ∷ [],
  )
  | _ ↦ (skip addr p, body)
]

unfoldable pub merge_all :
    (Text → Decompiled) → Dict Text → List Text → Progress × Text → Progress × Text
unfolding merge_one
merge_all decompile addr_names [] p = p
merge_all decompile addr_names (a ∷ rest) p =
    merge_all decompile addr_names rest (merge_one decompile addr_names a p)

abbrev pub merged_name : Text
merged_name = text "decompiled.c"

-- Both modes, on the addresses.
unfoldable pub write_files : (Text → Decompiled) → Bool → Text → Collected → Progress
unfolding merge_all write_single join
write_files decompile false dir c = write_single decompile c.addr_names dir c.addrs no_progress
write_files decompile true dir c =
    let (p, body) = merge_all decompile c.addr_names c.addrs (no_progress, []) in
    record p { files_written = merged_name ∷ []; writes = (join dir merged_name, body) ∷ [] }

abbrev pub report : Text → Collected → Progress → Report
report dir c p = record {
  output_dir = dir;
  total = length c.addrs;
  success = p.success;
  failed = p.failed;
  failed_addrs = take 50 p.failed_addrs;
  files = take 50 p.files_written;
  files_total = length p.files_written;
  writes = p.writes;
}

-- The guards on the directory; the real path is what is used from here on.
unfoldable pub check_dir : Request → Result Text
unfolding text_in text_eq starts_with
check_dir r =
    if text_in (text "..") r.normal_parts
    then error dots_in_path
    else if not r.allow_outside_cwd
        && (not (text_eq r.resolved_dir r.cwd)
            && not (starts_with (r.cwd ++ b'/' ∷ []) r.resolved_dir))
    then error outside_cwd
    else ok r.resolved_dir

abbrev pub is_given : Option Text → Bool
is_given (some (c ∷ cs)) = true
is_given _ = false

abbrev pub export_to : (Text → Decompiled) → Bool → Text → Collected → Result Report
export_to decompile merged dir c = elim c.addrs [
  | [] ↦ error no_addresses
  | a ∷ rest ↦ ok (report dir c (write_files decompile merged dir c))
]

-- After the pages: an empty list is an error of its own.
abbrev pub export_all : (Text → Decompiled) → Bool → Text → Result Collected → Result Report
export_all decompile merged dir (error e) = error e
export_all decompile merged dir (ok c) = elim c.addrs [
  | [] ↦ error no_functions
  | a ∷ rest ↦ export_to decompile merged dir c
]

-- `none` says that the pages have not ended within `fuel` rounds.
unfoldable pub decompile_to_file :
    (ℕ → ListReply) → (Text → Decompiled) → ℕ → Request → Option (Result Report)
unfolding check_dir collect write_files
decompile_to_file list_funcs decompile fuel r =
    if not (is_given r.instance_id) then some (error missing_instance_id) else elim (check_dir r) [
      | error e ↦ some (error e)
      | ok dir ↦
          if r.all
          then elim (collect page_size list_funcs fuel 0 (record { addrs = []; addr_names = [] })) [
            | none ↦ none
            | some c ↦ some (export_all decompile r.merged dir c)
          ]
          else some (export_to decompile r.merged dir (record { addrs = r.addrs; addr_names = [] }))
    ]
