-- ===== src/Index/Tests.antt =====
-- Runs of src/ida_multi_mcp/tools/index_store.py on small directories.
use ida_multi_mcp.Prelude.{
  is_some, ◌||◌, ◌≡◌, refl, ap, ◌∙◌, arith, Bool, false, inr, true, [], ◌∷◌, ◌++◌, Option, none,
  some, pos, Text, text, text_eq, text_in, contains, lookup, insert, erase, lstrip, rstrip, strip,
  if◌then◌else◌,
}
use ida_multi_mcp.Registry.Schema.{Value, num, str}
use ida_multi_mcp.Samples.{python}
use ida_multi_mcp.Index.Names.{
  is_valid_key, has_unsafe, vectors_name, meta_name, is_shard_name, starts_with, ends_with,
  legacy_shard_name, new_shard_name,
}
use ida_multi_mcp.Index.Rows.{Json, invalid, row, lines, end_line, parse_line, read_vectors_rows}
use ida_multi_mcp.Index.{
  Files, Index, Os, plain, table, Shard, in_file, outside, not_text, shard_of, sharded_meta,
  inline_meta, write_steps, append_vectors, read_vectors, delete_index, delete_all, shard_paths,
}
use ida_multi_mcp.Index.Answers.{Unused}
use ida_multi_mcp.Index.Crash.{Prudent, write_steps-OldOrNew}
use ida_multi_mcp.Index.Deletion.{lookup-delete_index}
use ida_multi_mcp.Index.Vectors.{
  insert_all, then_read, read_vectors-append_vectors, read_vectors-append_torn,
}

-- JSON on two rows: the text of the first is {1}, that of the second {2}.
abbrev first : Text × Value
first = (text "f", num (pos 1))

abbrev second : Text × Value
second = (text "g", num (pos 2))

abbrev json : Json
unfolding text_eq
json = record {
  dumps = λ key a v. if text_eq a (text "f") then text "{1}" else text "{2}";
  loads = λ key t.
      if text_eq t (text "{1}")
      then row first.0 first.1
      else (if text_eq t (text "{2}") then row second.0 second.1 else invalid);
}

abbrev os : Os
os = record {
  json = json;
  dump_object = λ d. text "{}";
  load_object = λ t. some [];
  is_truthy = λ t. true;
  basename = λ t. t;
  can_remove = λ t. true;
}

abbrev key : Text
key = text "ab12"

key_ok : is_valid_key key ≡ true
unfolding is_valid_key has_unsafe text_in text_eq
key_ok = refl

shard_names :
    (is_shard_name key (legacy_shard_name key) ≡ true)
    × (is_shard_name key (new_shard_name key (text "77")) ≡ true)
unfolding is_shard_name starts_with ends_with text_in text_eq
shard_names = (refl, refl)

-- One row is stored.
abbrev one_row : Files
one_row = (vectors_name key, text "{1}" ++ end_line) ∷ []

-- A crash left the beginning of a row behind it.
abbrev torn_row : Files
torn_row = (vectors_name key, text "{1}" ++ end_line ++ text "{\"ad") ∷ []

stored : read_vectors os python key one_row ≡ some (some (first ∷ []))
unfolding read_vectors is_valid_key has_unsafe text_in text_eq lookup lines read_vectors_rows
    parse_line strip lstrip rstrip insert
stored = refl

deleted : delete_index os key one_row ≡ some ([], some true)
unfolding delete_index delete_all shard_paths is_shard_name starts_with ends_with is_valid_key
    has_unsafe text_in text_eq lookup erase
deleted = refl

read_vectors-append_vectors_example :
    then_read python os key one_row (append_vectors os key (second ∷ []) one_row)
    ≡ some (some (insert_all (second ∷ []) (first ∷ [])))
unfolding lookup text_eq strip lstrip rstrip
read_vectors-append_vectors_example =
    read_vectors-append_vectors python os key one_row second [] (first ∷ [])
      (((refl, (refl, (refl, tt))), refl, refl, (text "2}", refl)), tt) key_ok
      (inr (text "{1}", refl)) stored

read_vectors-append_torn_example :
    then_read python os key torn_row (append_vectors os key (second ∷ first ∷ []) torn_row)
    ≡ some (some (insert_all (first ∷ []) (first ∷ [])))
unfolding lookup text_eq strip lstrip rstrip parse_line lines read_vectors_rows insert
read_vectors-append_torn_example =
    read_vectors-append_torn python os key torn_row (text "{1}" ++ end_line) (text "{\"ad") second.0
      second.1 (first ∷ []) (first ∷ [])
      (
        ((refl, (refl, (refl, tt))), refl, refl, (text "2}", refl)),
        (((refl, (refl, (refl, tt))), refl, refl, (text "1}", refl)), tt),
      )
      key_ok refl (inr (text "{1}", refl)) (refl, (refl, (refl, (refl, tt)))) refl refl

abbrev index : Index
index = (text "binary_sha256", plain (str key)) ∷ (text "functions", table (first ∷ [])) ∷ []

abbrev uuid : Text
uuid = text "77"

-- An operating system on which the meta objects of this index are written as S, with a shard, and I.
abbrev writer : Os
unfolding lookup text_eq
writer = record os {
  dump_object = λ d. if contains (text "functions_shard") d then text "S" else text "I";
  load_object = λ t.
      if text_eq t (text "S")
      then some (sharded_meta os index (new_shard_name key uuid))
      else some (inline_meta os index);
}

-- An older meta file, and vectors.
abbrev old_files : Files
old_files = (meta_name key, text "I") ∷ one_row

-- Whether a shard is the one with the fixed name.
abbrev is_legacy : Shard writer → Bool
unfolding text_eq
is_legacy (in_file name) = text_eq name (legacy_shard_name key)
is_legacy outside = false
is_legacy not_text = false

abbrev names_legacy : Option Index → Bool
unfolding lookup text_eq
names_legacy none = false
names_legacy (some meta) = is_legacy (shard_of writer key (lookup (text "functions_shard") meta))

old-Unused : Unused writer python key (new_shard_name key uuid) old_files
unfolding lookup text_eq text_in is_legacy names_legacy writer
old-Unused meta e h = let wrong : true ≡ false = ap names_legacy e ∙ ap is_legacy h in ground arith

write_steps-OldOrNew_example :
    Prudent writer python key
      (text "9")
      uuid
      index
      old_files
      (write_steps writer key uuid index old_files)
unfolding lookup text_eq insert text_in strip lstrip rstrip
write_steps-OldOrNew_example =
    write_steps-OldOrNew writer python key (text "9") uuid index old_files refl refl refl
      (((refl, (refl, (refl, tt))), refl, refl, (text "1}", refl)), tt) old-Unused

lookup-delete_index_example :
    (r : Files × Option Bool) × (delete_index os key old_files ≡ some r)
    × (is_some r.1 ≡ true)
    × ((a : Text)
        → lookup a r.0 ≡ (
            if text_in a (meta_name key ∷ vectors_name key ∷ []) || is_shard_name key a
            then none
            else lookup a old_files))
lookup-delete_index_example = lookup-delete_index os (λ n. refl) key old_files key_ok
