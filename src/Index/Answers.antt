-- ===== src/Index/Answers.antt =====
-- What `read_index` of src/ida_multi_mcp/tools/index_store.py answers, by what stands under the names.
use ida_multi_mcp.Prelude.{
  ◌≡◌, ◌≢◌, refl, ap, sym, ◌∙◌, inl, inr, false, not, [], ◌∷◌, Option, none, some, Text, text_eq,
  Dict, lookup, insert, lookup-insert, text_eq_iff, if◌then◌else◌, Bool-cases, Option-cases,
}
use ida_multi_mcp.Registry.Schema.{Python, Value}
use ida_multi_mcp.Index.Names.{meta_name}
use ida_multi_mcp.Index.Rows.{lines, read_jsonl}
use ida_multi_mcp.Index.{
  table, Index, Files, Os, Read, nothing, found, type_error, without, Shard, in_file, outside,
  not_text, shard_of, truthy, read_rows, read_text, read_shard, read_meta, read_valid,
  functions_key, sharded_key, shard_key,
}

module _ (os : Os) (py : Python) (key : Text) where
  -- What the reader makes of the functions' file.
  abbrev pub from_rows : Index → Option (Dict Value) → Read
  from_rows meta none = nothing
  from_rows meta (some functions) =
      found (insert functions_key (table functions) (without (sharded_key ∷ shard_key ∷ []) meta))

  abbrev pub from_text : Index → Option Text → Read
  from_text meta none = nothing
  from_text meta (some t) = from_rows meta (read_jsonl py os.json (lines t) [])

  abbrev pub from_shard : Index → (Text → Option Text) → Shard os → Read
  from_shard meta file not_text = type_error
  from_shard meta file outside = nothing
  from_shard meta file (in_file name) = from_text meta (file name)

  abbrev pub from_meta : (Text → Option Text) → Option Index → Read
  from_meta file none = nothing
  from_meta file (some meta) =
      if not (truthy os (lookup sharded_key meta))
      then found meta
      else from_shard meta file (shard_of os key (lookup shard_key meta))

  abbrev pub loaded : Option Text → Option Index
  loaded none = none
  loaded (some t) = os.load_object t

  from_read_rows :
      (epoch name : Text) (meta : Index) (d : Files) (o : Option (Dict Value))
      → (read_rows os py epoch key meta d name o).1 ≡ from_rows meta o
  from_read_rows epoch name meta d none = refl
  from_read_rows epoch name meta d (some functions) = refl

  from_read_text :
      (epoch name : Text) (meta : Index) (d : Files) (o : Option Text)
      → (read_text os py epoch key meta d name o).1 ≡ from_text meta o
  from_read_text epoch name meta d none = refl
  from_read_text epoch name meta d (some t) =
      from_read_rows epoch name meta d (read_jsonl py os.json (lines t) [])

  from_read_shard :
      (epoch : Text) (meta : Index) (d : Files) (s : Shard os)
      → (read_shard os py epoch key meta d s).1 ≡ from_shard meta (λ n. lookup n d) s
  from_read_shard epoch meta d not_text = refl
  from_read_shard epoch meta d outside = refl
  from_read_shard epoch meta d (in_file name) = from_read_text epoch name meta d (lookup name d)

  from_read_meta :
      (epoch : Text) (d : Files) (o : Option Index)
      → (read_meta os py epoch key d o).1 ≡ from_meta (λ n. lookup n d) o
  from_read_meta epoch d none = refl
  from_read_meta epoch d (some meta) = elim (Bool-cases (truthy os (lookup sharded_key meta))) [
    | inl e ↦ rw e (from_read_shard epoch meta d (shard_of os key (lookup shard_key meta)))
    | inr e ↦ rw e refl
  ]

  -- The reader's answer, by what stands under the names.
  pub read_valid-from_meta :
      (epoch : Text) (d : Files)
      → (read_valid os py epoch key d).1
        ≡ from_meta (λ n. lookup n d) (loaded (lookup (meta_name key) d))
  unfolding read_valid
  read_valid-from_meta epoch d = elim (Option-cases (lookup (meta_name key) d)) [
    | inl e ↦ rw e refl
    | inr (t, e) ↦ rw e (from_read_meta epoch d (os.load_object t))
  ]

  -- The old meta file does not name the shard.
  abbrev pub Unused : Text → Files → Type 0
  Unused shard d =
      (meta : Index)
      → loaded (lookup (meta_name key) d) ≡ some meta
      → shard_of os key (lookup shard_key meta) ≢ in_file shard

  -- A file that the meta file does not name changes nothing.
  from_shard-insert :
      (shard t : Text) (meta : Index) (d : Files) (s : Shard os)
      → s ≢ in_file shard
      → from_shard meta (λ n. lookup n (insert shard t d)) s ≡ from_shard meta (λ n. lookup n d) s
  from_shard-insert shard t meta d not_text h = refl
  from_shard-insert shard t meta d outside h = refl
  from_shard-insert shard t meta d (in_file name) h = elim (Bool-cases (text_eq shard name)) [
    | inl e ↦ absurd (h (ap in_file (sym ((text_eq_iff shard name).0 e))))
    | inr e ↦ ap (from_text meta) (rw (lookup-insert shard name t d, e) refl)
  ]

  from_meta-insert :
      (shard t : Text) (d : Files) (o : Option Index)
      → ((meta : Index) → o ≡ some meta → shard_of os key (lookup shard_key meta) ≢ in_file shard)
      → from_meta (λ n. lookup n (insert shard t d)) o ≡ from_meta (λ n. lookup n d) o
  from_meta-insert shard t d none h = refl
  from_meta-insert shard t d (some meta) h =
      ap (λ r. if not (truthy os (lookup sharded_key meta)) then found meta else r)
        (from_shard-insert shard t meta d (shard_of os key (lookup shard_key meta)) (h meta refl))

module _ (os : Os) (py : Python) (key epoch shard t : Text) (d : Files) where
  -- A shard that the old meta file does not name leaves the old index.
  pub read_valid-new_shard :
      Unused os py key shard d
      → text_eq shard (meta_name key) ≡ false
      → (read_valid os py epoch key (insert shard t d)).1 ≡ (read_valid os py epoch key d).1
  read_valid-new_shard h ne =
      let same : lookup (meta_name key) (insert shard t d) ≡ lookup (meta_name key) d =
        rw (lookup-insert shard (meta_name key) t d, ne) refl in
      read_valid-from_meta os py key epoch (insert shard t d)
      ∙ ap (λ m. from_meta os py key (λ n. lookup n (insert shard t d)) (loaded os py key m)) same
      ∙ from_meta-insert os py key shard t d (loaded os py key (lookup (meta_name key) d)) h
      ∙ sym (read_valid-from_meta os py key epoch d)
