-- ===== src/Index.antt =====
-- src/ida_multi_mcp/tools/index_store.py: the indexes of binaries, kept in the files of one
-- directory, which is a dict from names to texts. JSON, `os.path.basename` and what the operating
-- system lets be removed are parameters. A file is replaced in one step, and its temporary file,
-- which no method reads, is not modelled. A method that holds the lock of the index is one step,
-- and `write_steps` lists the directories that it passes through. The recorded path of a file is
-- its name.
pub mod Rows
pub mod Names
mod Texts
mod Vectors
mod Answers
mod Prune
mod Stored
mod Crash
mod Deletion
mod Tests
use ida_multi_mcp.Prelude.{
  ℕ, zero, suc, ◌+◌, Bool, true, false, not, ◌&&◌, ◌||◌, List, [], ◌∷◌, ◌++◌, Option, none, some, ℤ,
  pos, negsuc, Text, text, text_eq, text_in, Dict, lookup, contains, insert, erase, length, keep_if,
  ltb, is_some, or_default, if◌then◌else◌,
}
use ida_multi_mcp.Registry.Schema.{Python, Value, null, flag, num, str, other}
use ida_multi_mcp.Index.Rows.{Json, lines, dump_jsonl, read_jsonl, read_vectors_rows}
use ida_multi_mcp.Index.Names.{
  is_valid_key, meta_name, legacy_shard_name, new_shard_name, vectors_name, is_shard_name,
}

abbrev pub shard_threshold : ℕ
shard_threshold = 20000

-- The value of a key of an index: an object with its entries, or anything else.
pub data Field : Type 0 where
  plain : Value → Field
  table : Dict Value → Field

abbrev pub Index : Type 0
Index = Dict Field

abbrev pub Files : Type 0
Files = Dict Text

-- `json.dump` and `json.load` of an object (`none` for what is no JSON object), the truth value of
-- a number or an array, given as its text, and the operating system.
pub record Os : Type 0 where
  pub json : Json
  pub dump_object : Index → Text
  pub load_object : Text → Option Index
  pub is_truthy : Text → Bool
  pub basename : Text → Text
  pub can_remove : Text → Bool

pub data Read : Type 0 where
  nothing : Read
  found : Index → Read
  -- the `TypeError` of `os.path.basename` on what is no text
  type_error : Read

abbrev pub functions_key : Text
functions_key = text "functions"

abbrev pub sharded_key : Text
sharded_key = text "functions_sharded"

abbrev pub shard_key : Text
shard_key = text "functions_shard"

-- `index.get("functions", {})` if it is a dict
abbrev pub functions_of : Index → Dict Value
unfolding lookup
functions_of index = elim (lookup functions_key index) [
  | some (table d) ↦ d
  | some (plain v) ↦ []
  | none ↦ []
]

-- `{k: v for k, v in index.items() if k not in names}`
abbrev pub without : List Text → Index → Index
without names index = keep_if (λ e. not (text_in e.0 names)) index

module _ (os : Os) where
  -- `os.remove`, with an error ignored
  unfoldable pub remove : Text → Files → Files
  remove name d = if os.can_remove name then erase name d else d

  -- `keep is not None and os.path.basename(path) == keep`
  abbrev pub is_kept : Option Text → Text → Bool
  is_kept none name = false
  is_kept (some k) name = text_eq name k

  -- The loop of `_prune_shards` over a listing: the directory after each step.
  unfoldable pub prune_steps : Option Text → Files → Files → List Files
  unfolding remove
  prune_steps keep [] d = []
  prune_steps keep ((name, t) ∷ more) d =
      let d' = (if is_kept keep name then d else remove name d) in d' ∷ prune_steps keep more d'

  -- The files of the directory that are shards of the key.
  unfoldable pub shard_paths : Text → Files → Files
  unfolding is_shard_name
  shard_paths key d = keep_if (λ e. is_shard_name key e.0) d

  -- The object written where the functions stand in a shard.
  abbrev pub sharded_meta : Index → Text → Index
  sharded_meta index shard =
      insert shard_key (plain (str shard))
        (insert sharded_key (plain (flag true)) (without (functions_key ∷ []) index))

  abbrev pub inline_meta : Index → Index
  inline_meta index = without (sharded_key ∷ shard_key ∷ []) index

  -- The directories that `write_index` passes through; `uuid` is the fresh part of the shard's name.
  unfoldable pub write_steps : Text → Text → Index → Files → List Files
  unfolding prune_steps shard_paths dump_jsonl
  write_steps key uuid index d =
      let functions = functions_of index in
      if ltb shard_threshold (length functions)
      then (let shard = new_shard_name key uuid in
          let d1 = insert shard (dump_jsonl os.json (text "feat") functions) d in
          let d2 = insert (meta_name key) (os.dump_object (sharded_meta index shard)) d1 in
          d1 ∷ d2 ∷ prune_steps (some shard) (shard_paths key d2) d2)
      else (let d2 = insert (meta_name key) (os.dump_object (inline_meta index)) d in
          d2 ∷ prune_steps none (shard_paths key d2) d2)

  abbrev pub last_of : Files → List Files → Files
  last_of d [] = d
  last_of d (e ∷ es) = last_of e es

  -- `index["binary_sha256"]` if it is a valid key; `none` is the `ValueError`
  unfoldable pub key_of : Index → Option Text
  unfolding is_valid_key lookup
  key_of index = elim (lookup (text "binary_sha256") index) [
    | some (plain (str key)) ↦ if is_valid_key key then some key else none
    | _ ↦ none
  ]

  unfoldable pub write_index : Text → Index → Files → Files × Option Text
  unfolding write_steps key_of
  write_index uuid index d = elim (key_of index) [
    | none ↦ (d, none)
    | some key ↦ (last_of d (write_steps key uuid index d), some (meta_name key))
  ]

  -- `_quarantine`, at second `epoch` in decimal
  unfoldable pub quarantine : Text → Text → Files → Files
  quarantine epoch name d = elim (lookup name d) [
    | none ↦ d
    | some t ↦
        if os.can_remove name
        then insert (name ++ text ".corrupt-" ++ epoch) t (erase name d)
        else d
  ]

  -- The truth value of `meta.get(key)`.
  abbrev pub truthy : Option Field → Bool
  truthy none = false
  truthy (some (table [])) = false
  truthy (some (table (e ∷ d))) = true
  truthy (some (plain null)) = false
  truthy (some (plain (flag b))) = b
  truthy (some (plain (num (pos zero)))) = false
  truthy (some (plain (num (pos (suc n))))) = true
  truthy (some (plain (num (negsuc n)))) = true
  truthy (some (plain (str []))) = false
  truthy (some (plain (str (c ∷ cs)))) = true
  truthy (some (plain (other t))) = os.is_truthy t

  -- The file of the functions, by the value of "functions_shard".
  pub data Shard : Type 0 where
    in_file : Text → Shard
    outside not_text : Shard

  abbrev pub shard_of : Text → Option Field → Shard
  shard_of key o =
      if truthy o
      then elim o [
        | some (plain (str name)) ↦
            if text_eq (os.basename name) name then in_file name else outside
        | _ ↦ not_text
      ]
      else in_file (legacy_shard_name key)

  module _ (py : Python) where
    -- The end of `read_index`, by what `_read_jsonl` made of the file `name`.
    abbrev pub read_rows : Text → Text → Index → Files → Text → Option (Dict Value) → Files × Read
    read_rows epoch key meta d name none =
        (quarantine epoch name (quarantine epoch (meta_name key) d), nothing)
    read_rows epoch key meta d name (some functions) = (
      d,
      found (insert functions_key (table functions) (without (sharded_key ∷ shard_key ∷ []) meta)),
    )

    -- The same, by the text of the file.
    abbrev pub read_text : Text → Text → Index → Files → Text → Option Text → Files × Read
    read_text epoch key meta d name none = (quarantine epoch (meta_name key) d, nothing)
    read_text epoch key meta d name (some t) =
        read_rows epoch key meta d name (read_jsonl py os.json (lines t) [])

    -- The same, by the name of the file.
    abbrev pub read_shard : Text → Text → Index → Files → Shard → Files × Read
    read_shard epoch key meta d not_text = (d, type_error)
    read_shard epoch key meta d outside = (quarantine epoch (meta_name key) d, nothing)
    read_shard epoch key meta d (in_file name) = read_text epoch key meta d name (lookup name d)

    -- The part of `read_index` behind the load of the meta file.
    abbrev pub read_meta : Text → Text → Files → Option Index → Files × Read
    read_meta epoch key d none = (quarantine epoch (meta_name key) d, nothing)
    read_meta epoch key d (some meta) =
        if not (truthy (lookup sharded_key meta))
        then (d, found meta)
        else read_shard epoch key meta d (shard_of key (lookup shard_key meta))

    -- `read_index` for a valid key, by the text of the meta file.
    abbrev pub read_file : Text → Text → Files → Option Text → Files × Read
    read_file epoch key d none = (d, nothing)
    read_file epoch key d (some t) = read_meta epoch key d (os.load_object t)

    unfoldable pub read_valid : Text → Text → Files → Files × Read
    read_valid epoch key d = read_file epoch key d (lookup (meta_name key) d)

    unfoldable pub read_index : Text → Text → Files → Option (Files × Read)
    unfolding read_valid is_valid_key
    read_index epoch key d = if is_valid_key key then some (read_valid epoch key d) else none

    -- `read_vectors`; the inner `none` is a `KeyError`
    unfoldable pub read_vectors : Text → Files → Option (Option (Dict Value))
    unfolding is_valid_key read_vectors_rows lines
    read_vectors key d =
        if is_valid_key key
        then elim (lookup (vectors_name key) d) [
          | none ↦ some (some [])
          | some t ↦ some (read_vectors_rows py os.json (lines t) [])
        ]
        else none

  unfoldable pub has_index : Text → Files → Option Bool
  unfolding is_valid_key
  has_index key d = if is_valid_key key then some (contains (meta_name key) d) else none

  -- `append_vectors`
  unfoldable pub append_vectors : Text → Dict Value → Files → Option Files
  unfolding is_valid_key dump_jsonl
  append_vectors key [] d = if is_valid_key key then some d else none
  append_vectors key (v ∷ vs) d =
      if is_valid_key key
      then some (
          insert (vectors_name key)
            (or_default (lookup (vectors_name key) d) []
              ++ dump_jsonl os.json (text "vec") (v ∷ vs))
            d)
      else none

  -- `clear_vectors`
  unfoldable pub clear_vectors : Text → Files → Option Files
  unfolding is_valid_key remove
  clear_vectors key d = if is_valid_key key then some (remove (vectors_name key) d) else none

  -- The loop of `delete_index`: an error other than "not found" ends it, as `none`.
  unfoldable pub delete_all : List Text → Bool → Files → Files × Option Bool
  delete_all [] removed d = (d, some removed)
  delete_all (name ∷ more) removed d = elim (lookup name d) [
    | none ↦ delete_all more removed d
    | some t ↦ if os.can_remove name then delete_all more true (erase name d) else (d, none)
  ]

  -- The names of a listing.
  abbrev pub names_of : Files → List Text
  names_of [] = []
  names_of ((name, t) ∷ d) = name ∷ names_of d

  unfoldable pub delete_index : Text → Files → Option (Files × Option Bool)
  unfolding is_valid_key delete_all shard_paths
  delete_index key d =
      if is_valid_key key
      then some
          (delete_all (meta_name key ∷ vectors_name key ∷ names_of (shard_paths key d)) false d)
      else none
