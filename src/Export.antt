-- ===== src/Export.antt =====
-- `_handle_decompile_to_file` of src/ida_multi_mcp/server.py, with `paginate` of
-- src/ida_multi_mcp/ida_mcp/utils.py, which answers its queries. What the code reads from the replies
-- of the router is an argument, as are the paths that the operating system resolves; on POSIX. The
-- files that are written are part of the result; writing does not fail.
pub mod Run
mod Paging
mod Files
mod Confined
mod Complete
mod Tests
use ida_multi_mcp.Prelude.{
  ℕ, zero, suc, ◌+◌, Bool, true, false, not, ◌&&◌, ◌||◌, List, [], ◌∷◌, ◌++◌, Option, none, some, ℤ,
  clip, Text, text, text_eq, text_in, Dict, lookup, insert, length, take, drop, ltb, leb, ◌==◌,
  if◌then◌else◌,
}
use ida_multi_mcp.ToolSchemas.{starts_with}

-- `Page`
pub record Page {ℓ} (A : Type ℓ) : Type ℓ where
  pub items : List A
  pub next_offset : Option ℕ

-- `paginate`; a count of zero asks for all
unfoldable pub paginate {ℓ} : {A : Type ℓ} → List A → ℤ → ℤ → Page A
paginate items offset count =
    let n = (if clip count == 0 then length items else clip count) in
    record {
      items = take n (drop (clip offset) items);
      next_offset = (if leb (length items) (clip offset + n) then none else some (clip offset + n));
    }

-- A function as `list_funcs` reports it.
pub record Function : Type 0 where
  pub addr : Option Text
  pub name : Option Text

-- What the code finds in the reply to one query of `list_funcs`.
pub data ListReply : Type 0 where
  failure : Text → ListReply
  -- no content, no list in it, or an empty one
  nothing : ListReply
  unparsable : ListReply
  page : Page Function → ListReply

-- `addrs` and `addr_names`
pub record Collected : Type 0 where
  pub addrs : List Text
  pub addr_names : Dict Text

-- The errors that are returned.
pub data ExportError : Type 0 where
  missing_instance_id dots_in_path outside_cwd no_addresses no_functions bad_response : ExportError
  list_failed : Text → ExportError

pub data Result {ℓ} (A : Type ℓ) : Type ℓ where
  ok : A → Result A
  error : ExportError → Result A

abbrev pub page_size : ℕ
page_size = 500

-- The loop over `page_data`.
unfoldable pub add_functions : List Function → Collected → Collected
unfolding insert
add_functions [] c = c
add_functions (f ∷ fs) c = add_functions fs (elim f.addr [
  | none ↦ c
  | some a ↦ record {
    addrs = c.addrs ++ a ∷ [];
    addr_names = elim f.name [ none ↦ c.addr_names | some n ↦ insert a n c.addr_names ];
  }
])

-- What is done with a page; `rest` is what the loop does from its end on, where there are more.
unfoldable pub after_page :
    ℕ
    → Page Function
    → (ℕ → Collected → Option (Result Collected))
    → Collected
    → Option (Result Collected)
unfolding add_functions
after_page size p rest c = elim p.items [
  | [] ↦ some (ok c)
  | f ∷ fs ↦
      let c' = add_functions (f ∷ fs) c in
      elim p.next_offset [
        | none ↦ some (ok c')
        | some next ↦ if ltb (length (f ∷ fs)) size then some (ok c') else rest next c'
      ]
]

-- The `while` loop over the pages, of `size` functions each; `none` says that it has not ended within
-- `fuel` rounds.
unfoldable pub collect : ℕ → (ℕ → ListReply) → ℕ → ℕ → Collected → Option (Result Collected)
unfolding after_page
collect size reply zero offset c = none
collect size reply (suc fuel) offset c = elim (reply offset) [
  | failure e ↦ some (error (list_failed e))
  | nothing ↦ some (ok c)
  | unparsable ↦ some (error bad_response)
  | page p ↦ after_page size p (λ next c'. collect size reply fuel next c') c
]

-- `re.sub(r'[<>:"/\\|?*]', "_", name)`
abbrev pub reserved : List ℕ
reserved = text "<>:\"/\\|?*"

unfoldable pub is_in : ℕ → List ℕ → Bool
is_in c [] = false
is_in c (d ∷ ds) = d == c || is_in c ds

-- `re.sub(r"[...]", "_", t)`, for a test on characters
unfoldable pub substitute : (ℕ → Bool) → Text → Text
substitute test [] = []
substitute test (c ∷ cs) = (if test c then b'_' else c) ∷ substitute test cs

unfoldable pub replace_reserved : Text → Text
unfolding substitute is_in
replace_reserved name = substitute (λ c. is_in c reserved) name

-- `safe_name.replace("..", "_")`
unfoldable pub replace_dots : Text → Text
replace_dots [] = []
replace_dots (c ∷ []) = c ∷ []
replace_dots (c ∷ d ∷ cs) = elim (c == b'.' && d == b'.') [
  | true ↦ b'_' ∷ replace_dots cs
  | false ↦ c ∷ replace_dots (d ∷ cs)
]

-- `re.sub(r"[^0-9A-Fa-fx]", "_", str(addr))`
unfoldable pub address_suffix : Text → Text
unfolding substitute is_in
address_suffix addr = substitute (λ c. not (is_in c (text "0123456789ABCDEFabcdefx"))) addr

unfoldable pub file_name : Text → Text → Text
unfolding replace_reserved replace_dots address_suffix
file_name name addr =
    replace_dots (replace_reserved name) ++ b'_' ∷ address_suffix addr ++ text ".c"

-- `os.path.join` on POSIX
abbrev pub ends_in_slash : Text → Bool
ends_in_slash [] = true
ends_in_slash (c ∷ []) = c == b'/'
ends_in_slash (c ∷ d ∷ cs) = ends_in_slash (d ∷ cs)

abbrev pub is_absolute : Text → Bool
is_absolute [] = false
is_absolute (c ∷ cs) = c == b'/'

unfoldable pub join : Text → Text → Text
join dir file =
    if is_absolute file then file else if ends_in_slash dir then dir ++ file else dir ++ b'/' ∷ file

-- What the code reads from a reply of `decompile`: "code" and "name".
pub record Decompiled : Type 0 where
  pub code : Option Text
  pub name : Option Text

-- `a or b`, where an absent or empty text counts as false
abbrev pub or_text : Option Text → Text → Text
or_text (some (c ∷ cs)) b = c ∷ cs
or_text _ b = b

unfoldable pub name_for : Dict Text → Decompiled → Text → Text
unfolding lookup
name_for addr_names d addr = or_text (lookup addr addr_names) (or_text d.name addr)

-- `f"// {name} @ {addr}\n"`
abbrev pub heading : Text → Text → Text
heading name addr = text "// " ++ name ++ text " @ " ++ addr ++ b'\n' ∷ []

-- The counters and lists of the loop, with the files written so far.
pub record Progress : Type 0 where
  pub success : ℕ
  pub failed : ℕ
  pub failed_addrs : List Text
  pub files_written : List Text
  pub writes : List (Text × Text)

abbrev pub skip : Text → Progress → Progress
skip addr p = record p { failed = suc p.failed; failed_addrs = p.failed_addrs ++ addr ∷ [] }

-- One round in mode "single".
unfoldable pub write_one : (Text → Decompiled) → Dict Text → Text → Text → Progress → Progress
unfolding name_for file_name join
write_one decompile addr_names dir addr p = elim (decompile addr).code [
  | some (c ∷ cs) ↦
      let name = name_for addr_names (decompile addr) addr in
      let file = file_name name addr in
      record p {
        success = suc p.success;
        files_written = p.files_written ++ file ∷ [];
        writes = p.writes ++ (join dir file, heading name addr ++ (c ∷ cs) ++ b'\n' ∷ []) ∷ [];
      }
  | _ ↦ skip addr p
]

unfoldable pub write_single :
    (Text → Decompiled) → Dict Text → Text → List Text → Progress → Progress
unfolding write_one
write_single decompile addr_names dir [] p = p
write_single decompile addr_names dir (a ∷ rest) p =
    write_single decompile addr_names dir rest (write_one decompile addr_names dir a p)
