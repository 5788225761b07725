-- ===== src/Index/Crash.antt =====
-- `write_index` of src/ida_multi_mcp/tools/index_store.py, stopped anywhere.
use ida_multi_mcp.Prelude.{
  ◌≡◌, ◌⊎◌, refl, ap, sym, ◌∙◌, inl, inr, true, false, List, [], ◌∷◌, none, some, Text, text,
  text_eq, lookup, insert, lookup-insert, text_eq_refl, text_eq_iff, length, ltb, Bool-cases, arith,
}
use mathlib.Core.Path.{subst}
use ida_multi_mcp.Registry.Schema.{Python}
use ida_multi_mcp.Index.Names.{meta_name, new_shard_name}
use ida_multi_mcp.Index.Rows.{dump_jsonl}
use ida_multi_mcp.Index.Texts.{meta_name-new_shard_name, meta_name-is_shard_name}
use ida_multi_mcp.Index.Vectors.{AllWork, insert_all}
use ida_multi_mcp.Index.{
  table, Index, Files, Os, found, functions_of, without, prune_steps, shard_paths, sharded_meta,
  inline_meta, write_steps, last_of, read_valid, shard_threshold, functions_key,
}
use ida_multi_mcp.Index.Answers.{Unused, read_valid-new_shard}
use ida_multi_mcp.Index.Prune.{
  All, All-map, All-zip, All-last, lookup-shard_paths, lookup-prune_steps,
}
use ida_multi_mcp.Index.Stored.{marks, stored, read_valid-sharded, read_valid-inline}

module _ (os : Os) (py : Python) (key epoch uuid : Text) (index : Index) (d : Files) where
  abbrev new_shard : Text
  new_shard = new_shard_name key uuid

  -- The directory after the meta file of a large index, and that of a small one, was replaced.
  abbrev with_shard : Files
  with_shard = insert new_shard (dump_jsonl os.json (text "feat") (functions_of index)) d

  abbrev committed : Files
  committed = insert (meta_name key) (os.dump_object (sharded_meta os index new_shard)) with_shard

  abbrev committed_inline : Files
  committed_inline = insert (meta_name key) (os.dump_object (inline_meta os index)) d

  meta_name-other : text_eq (meta_name key) new_shard ≡ false
  meta_name-other = ground (
    arith,
    text_eq_iff (meta_name key) new_shard,
    text_eq_iff new_shard (meta_name key),
    meta_name-new_shard_name key uuid,
  )

  pruned_sharded :
      All
        (λ e.
          (lookup (meta_name key) e ≡ some (os.dump_object (sharded_meta os index new_shard)))
          × (lookup new_shard e ≡ some (dump_jsonl os.json (text "feat") (functions_of index))))
        (committed ∷ prune_steps os (some new_shard) (shard_paths os key committed) committed)
  pruned_sharded =
      let t = os.dump_object (sharded_meta os index new_shard) in
      let rows = dump_jsonl os.json (text "feat") (functions_of index) in
      let steps = prune_steps os (some new_shard) (shard_paths os key committed) committed in
      let meta_there : lookup (meta_name key) committed ≡ some t =
        rw
          (lookup-insert (meta_name key) (meta_name key) t with_shard, text_eq_refl (meta_name key))
          refl in
      let shard_there : lookup new_shard committed ≡ some rows =
        rw (lookup-insert (meta_name key) new_shard t with_shard, meta_name-other)
          (lookup-insert new_shard new_shard rows d ∙ rw (text_eq_refl new_shard) refl) in
      (
        (meta_there, shard_there),
        All-zip (λ e. lookup (meta_name key) e ≡ some t) (λ e. lookup new_shard e ≡ some rows) steps
            (All-map (λ e. lookup (meta_name key) e ≡ lookup (meta_name key) committed)
              (λ e. lookup (meta_name key) e ≡ some t) (λ e q. q ∙ meta_there) steps
              (lookup-prune_steps os (some new_shard) (shard_paths os key committed) committed
                (meta_name key)
                (inl (
                  lookup-shard_paths os key (meta_name key) committed
                    (meta_name-is_shard_name key)))))
            (All-map (λ e. lookup new_shard e ≡ lookup new_shard committed)
              (λ e. lookup new_shard e ≡ some rows) (λ e q. q ∙ shard_there) steps
              (lookup-prune_steps os (some new_shard) (shard_paths os key committed) committed
                new_shard (inr (text_eq_refl new_shard)))),
      )

  pruned_inline :
      All
        (λ e. lookup (meta_name key) e ≡ some (os.dump_object (inline_meta os index)))
        (committed_inline
          ∷ prune_steps os none (shard_paths os key committed_inline) committed_inline)
  pruned_inline =
      let t = os.dump_object (inline_meta os index) in
      let steps = prune_steps os none (shard_paths os key committed_inline) committed_inline in
      let meta_there : lookup (meta_name key) committed_inline ≡ some t =
        rw (lookup-insert (meta_name key) (meta_name key) t d, text_eq_refl (meta_name key)) refl in
      (
        meta_there,
        All-map (λ e. lookup (meta_name key) e ≡ lookup (meta_name key) committed_inline)
            (λ e. lookup (meta_name key) e ≡ some t) (λ e q. q ∙ meta_there) steps
            (lookup-prune_steps os none (shard_paths os key committed_inline) committed_inline
              (meta_name key)
              (inl (
                lookup-shard_paths os key (meta_name key) committed_inline
                  (meta_name-is_shard_name key)))),
      )

  -- The reader answers as before the write, or with the new index.
  abbrev pub OldOrNew : Files → Type 0
  OldOrNew e =
      ((read_valid os py epoch key e).1 ≡ (read_valid os py epoch key d).1)
      ⊎ ((read_valid os py epoch key e).1 ≡ found (stored index))

  abbrev IsNew : Files → Type 0
  IsNew e = (read_valid os py epoch key e).1 ≡ found (stored index)

  -- What is shown of the directories that the write passes through.
  abbrev pub Prudent : List Files → Type 0
  Prudent steps =
      All OldOrNew steps
      × ((read_valid os py epoch key (last_of os d steps)).1 ≡ found (stored index))

  large_steps : List Files
  large_steps = committed ∷ prune_steps os (some new_shard) (shard_paths os key committed) committed

  small_steps : List Files
  small_steps =
      committed_inline ∷ prune_steps os none (shard_paths os key committed_inline) committed_inline

  write_steps-large :
      ltb shard_threshold (length (functions_of index)) ≡ true
      → write_steps os key uuid index d ≡ with_shard ∷ large_steps
  unfolding write_steps large_steps
  write_steps-large e = rw e refl

  write_steps-small :
      ltb shard_threshold (length (functions_of index)) ≡ false
      → write_steps os key uuid index d ≡ small_steps
  unfolding write_steps small_steps
  write_steps-small e = rw e refl

  stored-large :
      ltb shard_threshold (length (functions_of index)) ≡ true
      → stored index
        ≡ insert functions_key
            (table (insert_all (functions_of index) []))
            (without marks (without (functions_key ∷ []) index))
  unfolding stored
  stored-large e = rw e refl

  stored-small :
      ltb shard_threshold (length (functions_of index)) ≡ false → stored index ≡ without marks index
  unfolding stored
  stored-small e = rw e refl

  large :
      ltb shard_threshold (length (functions_of index)) ≡ true
      → os.load_object (os.dump_object (sharded_meta os index new_shard))
        ≡ some (sharded_meta os index new_shard)
      → text_eq (os.basename new_shard) new_shard ≡ true
      → AllWork py os.json (text "feat") (functions_of index)
      → Unused os py key new_shard d
      → Prudent (with_shard ∷ large_steps)
  unfolding large_steps
  large e ls b w u =
      let steps = prune_steps os (some new_shard) (shard_paths os key committed) committed in
      let new : All IsNew (committed ∷ steps) =
        All-map
          (λ x.
            (lookup (meta_name key) x ≡ some (os.dump_object (sharded_meta os index new_shard)))
            × (lookup new_shard x ≡ some (dump_jsonl os.json (text "feat") (functions_of index))))
          IsNew
          (λ x h.
            read_valid-sharded os py key epoch uuid index x ls b w h.0 h.1
            ∙ ap found (sym (stored-large e)))
          (committed ∷ steps) pruned_sharded in
      let first : OldOrNew with_shard = inl (
        read_valid-new_shard os py key epoch new_shard
          (dump_jsonl os.json (text "feat") (functions_of index)) d u
          (meta_name-new_shard_name key uuid)) in
      (
        (first, All-map IsNew OldOrNew (λ x h. inr h) (committed ∷ steps) new),
        All-last IsNew os committed steps new.0 new.1,
      )

  small :
      ltb shard_threshold (length (functions_of index)) ≡ false
      → os.load_object (os.dump_object (inline_meta os index)) ≡ some (inline_meta os index)
      → Prudent small_steps
  unfolding small_steps
  small e li =
      let steps = prune_steps os none (shard_paths os key committed_inline) committed_inline in
      let new : All IsNew (committed_inline ∷ steps) =
        All-map (λ x. lookup (meta_name key) x ≡ some (os.dump_object (inline_meta os index))) IsNew
          (λ x h.
            read_valid-inline os py key epoch uuid index x li h ∙ ap found (sym (stored-small e)))
          (committed_inline ∷ steps) pruned_inline in
      (
        All-map IsNew OldOrNew (λ x h. inr h) (committed_inline ∷ steps) new,
        All-last IsNew os committed_inline steps new.0 new.1,
      )

  -- If JSON reads back what it wrote of this index, its rows and its meta object, and if the fresh
  -- shard is a plain file name that the old meta file does not name, then wherever the write is
  -- stopped, a reader gets the old index or the new one, and after the last step the new one.
  pub write_steps-OldOrNew :
      os.load_object (os.dump_object (sharded_meta os index new_shard))
        ≡ some (sharded_meta os index new_shard)
      → os.load_object (os.dump_object (inline_meta os index)) ≡ some (inline_meta os index)
      → text_eq (os.basename new_shard) new_shard ≡ true
      → AllWork py os.json (text "feat") (functions_of index)
      → Unused os py key new_shard d
      → Prudent (write_steps os key uuid index d)
  write_steps-OldOrNew ls li b w u =
      elim (Bool-cases (ltb shard_threshold (length (functions_of index)))) [
        | inl e ↦ subst Prudent (sym (write_steps-large e)) (large e ls b w u)
        | inr e ↦ subst Prudent (sym (write_steps-small e)) (small e li)
      ]
