-- ===== src/Index/Stored.antt =====
-- What `read_index` of src/ida_multi_mcp/tools/index_store.py makes of the files of a written index.
use ida_multi_mcp.Prelude.{
  ℕ, ◌≡◌, refl, ap, ◌∙◌, true, not, List, [], ◌∷◌, ◌++◌, none, some, Text, text, text_eq, text_in,
  lookup, insert, lookup-insert, text_eq_iff, length, ltb, if◌then◌else◌, arith,
}
use ida_multi_mcp.Registry.Schema.{Python, flag, str}
use ida_multi_mcp.Index.Names.{meta_name, new_shard_name}
use ida_multi_mcp.Index.Rows.{dump_jsonl}
use ida_multi_mcp.Index.Vectors.{AllWork, insert_all, read_jsonl-dump_jsonl}
use ida_multi_mcp.Index.{
  Field, plain, table, Index, Files, Os, found, functions_of, without, sharded_meta, inline_meta,
  in_file, shard_of, truthy, read_valid, shard_threshold, functions_key, sharded_key, shard_key,
}
use ida_multi_mcp.Index.Answers.{
  from_rows, from_text, from_shard, from_meta, loaded, read_valid-from_meta,
}

keep_if-insert :
    (names : List Text) (k : Text) (v : Field) (d : Index)
    → text_in k names ≡ true
    → without names (insert k v d) ≡ without names d
unfolding insert
keep_if-insert names k v [] h = ground arith
keep_if-insert names k v ((j, w) ∷ d) h =
    ground (arith, keep_if-insert names k v d, text_eq_iff j k)

lookup-without :
    (names : List Text) (k : Text) (d : Index)
    → text_in k names ≡ true
    → lookup k (without names d) ≡ none
unfolding lookup
lookup-without names k [] h = refl
lookup-without names k ((j, w) ∷ d) h = ground (arith, lookup-without names k d, text_eq_iff j k)

abbrev pub marks : List Text
marks = sharded_key ∷ shard_key ∷ []

truthy-name :
    (os : Os) (key rest : Text) (c : ℕ) → truthy os (some (plain (str (key ++ c ∷ rest)))) ≡ true
truthy-name os [] rest c = refl
truthy-name os (x ∷ xs) rest c = refl

-- What is read back of a written index: less the keys about shards; of a large one the functions
-- come last.
unfoldable pub stored : Index → Index
unfolding lookup
stored index =
    if ltb shard_threshold (length (functions_of index))
    then insert functions_key (table (insert_all (functions_of index) []))
        (without marks (without (functions_key ∷ []) index))
    else without marks index

module _ (os : Os) (py : Python) (key epoch uuid : Text) (index : Index) where
  abbrev shard_file : Text
  shard_file = new_shard_name key uuid

  pub read_valid-sharded :
      (e : Files)
      → os.load_object (os.dump_object (sharded_meta os index shard_file))
        ≡ some (sharded_meta os index shard_file)
      → text_eq (os.basename shard_file) shard_file ≡ true
      → AllWork py os.json (text "feat") (functions_of index)
      → lookup (meta_name key) e ≡ some (os.dump_object (sharded_meta os index shard_file))
      → lookup shard_file e ≡ some (dump_jsonl os.json (text "feat") (functions_of index))
      → (read_valid os py epoch key e).1
        ≡ found (
            insert functions_key
              (table (insert_all (functions_of index) []))
              (without (sharded_key ∷ shard_key ∷ []) (without (functions_key ∷ []) index)))
  unfolding lookup text_eq text_in
  read_valid-sharded e l b w m s =
      let meta = sharded_meta os index shard_file in
      let marked : truthy os (lookup sharded_key meta) ≡ true = ap (truthy os) (
        lookup-insert shard_key sharded_key (plain (str shard_file))
          (insert sharded_key (plain (flag true)) (without (functions_key ∷ []) index))
        ∙ lookup-insert sharded_key sharded_key (plain (flag true))
            (without (functions_key ∷ []) index)) in
      let named : lookup shard_key meta ≡ some (plain (str shard_file)) =
        lookup-insert shard_key shard_key (plain (str shard_file))
          (insert sharded_key (plain (flag true)) (without (functions_key ∷ []) index)) in
      let file : shard_of os key (lookup shard_key meta) ≡ in_file shard_file =
        ap (shard_of os key) named
        ∙ rw (truthy-name os key (text "functions." ++ (uuid ++ text ".jsonl")) b'.', b) refl in
      read_valid-from_meta os py key epoch e
      ∙ ap (λ o. from_meta os py key (λ n. lookup n e) (loaded os py key o)) m
      ∙ ap (from_meta os py key (λ n. lookup n e)) l
      ∙ ap
          (λ c.
            if not c
            then found meta
            else from_shard os py key meta (λ n. lookup n e)
                (shard_of os key (lookup shard_key meta)))
          marked
      ∙ ap (from_shard os py key meta (λ n. lookup n e)) file
      ∙ ap (from_text os py key meta) s
      ∙ ap (from_rows os py key meta) (read_jsonl-dump_jsonl py os.json (functions_of index) [] w)
      ∙ ap (λ d. found (insert functions_key (table (insert_all (functions_of index) [])) d))
          (keep_if-insert marks shard_key (plain (str shard_file))
              (insert sharded_key (plain (flag true)) (without (functions_key ∷ []) index)) refl
            ∙ keep_if-insert marks sharded_key (plain (flag true))
                (without (functions_key ∷ []) index) refl)

  pub read_valid-inline :
      (e : Files)
      → os.load_object (os.dump_object (inline_meta os index)) ≡ some (inline_meta os index)
      → lookup (meta_name key) e ≡ some (os.dump_object (inline_meta os index))
      → (read_valid os py epoch key e).1 ≡ found (without (sharded_key ∷ shard_key ∷ []) index)
  unfolding text_in text_eq
  read_valid-inline e l m =
      read_valid-from_meta os py key epoch e
      ∙ ap (λ o. from_meta os py key (λ n. lookup n e) (loaded os py key o)) m
      ∙ ap (from_meta os py key (λ n. lookup n e)) l
      ∙ rw (lookup-without marks sharded_key index refl) refl
