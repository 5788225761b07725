-- ===== src/Index/Rows.antt =====
-- src/ida_multi_mcp/tools/index_store.py: files with one JSON object in each line, as `_dump_jsonl`
-- and `append_vectors` write them and `_read_jsonl` and `read_vectors` read them. JSON itself is a
-- parameter. A line ends in "\n" here: the translation that Python's text mode makes of it when a
-- file is written is undone when it is read.
use ida_multi_mcp.Prelude.{
  List, [], ◌∷◌, ◌++◌, Option, none, some, Text, text, Dict, insert, strip, ◌==◌, if◌then◌else◌,
}
use ida_multi_mcp.Registry.Schema.{Python, Value}

-- What a line holds: nothing but white space, or what `json.loads(line)`, `record["addr"]` and
-- `record[key]` give: a `ValueError`, a `KeyError` or a `TypeError`, or a row.
pub data Parsed : Type 0 where
  blank invalid no_row : Parsed
  row : Text → Value → Parsed

pub record Json : Type 0 where
  -- `json.dumps({"addr": addr, key: value})`, without and with a key
  pub dumps : Text → Text → Value → Text
  pub loads : Text → Text → Parsed

-- The lines of a file, without their ends.
unfoldable pub lines : Text → List Text
lines [] = []
lines (c ∷ cs) =
    let rest = lines cs in
    if c == b'\n' then [] ∷ rest else elim rest [ [] ↦ (c ∷ []) ∷ [] | l ∷ ls ↦ (c ∷ l) ∷ ls ]

abbrev pub end_line : Text
end_line = b'\n' ∷ []

-- `for addr, value in d.items(): f.write(json.dumps(...) + "\n")`
unfoldable pub dump_jsonl : Json → Text → Dict Value → Text
dump_jsonl js key [] = []
dump_jsonl js key ((a, v) ∷ d) = js.dumps key a v ++ end_line ++ dump_jsonl js key d

-- What both loops do with a line before they look at the row.
unfoldable pub parse_line : Python → Json → Text → Text → Parsed
unfolding strip
parse_line py js key l = elim (strip py.is_space l) [ [] ↦ blank | c ∷ cs ↦ js.loads key (c ∷ cs) ]

-- A round of the loop of `_read_jsonl`: `none` where it raises.
abbrev pub shard_step :
    Parsed → (Dict Value → Option (Dict Value)) → Dict Value → Option (Dict Value)
shard_step blank rest d = rest d
shard_step (row a v) rest d = rest (insert a v d)
shard_step invalid rest d = none
shard_step no_row rest d = none

-- `_read_jsonl` on the lines
unfoldable pub read_jsonl : Python → Json → List Text → Dict Value → Option (Dict Value)
read_jsonl py js [] d = some d
read_jsonl py js (l ∷ ls) d = shard_step (parse_line py js (text "feat") l) (read_jsonl py js ls) d

-- A round of the loop of `read_vectors`: what is no JSON is skipped; `none` where a row lacks a key.
abbrev pub vector_step :
    Parsed → (Dict Value → Option (Dict Value)) → Dict Value → Option (Dict Value)
vector_step blank rest d = rest d
vector_step (row a v) rest d = rest (insert a v d)
vector_step invalid rest d = rest d
vector_step no_row rest d = none

unfoldable pub read_vectors_rows : Python → Json → List Text → Dict Value → Option (Dict Value)
read_vectors_rows py js [] d = some d
read_vectors_rows py js (l ∷ ls) d =
    vector_step (parse_line py js (text "vec") l) (read_vectors_rows py js ls) d
