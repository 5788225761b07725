-- ===== src/Index/Deletion.antt =====
-- What `delete_index` of src/ida_multi_mcp/tools/index_store.py leaves.
use ida_multi_mcp.Prelude.{
  ◌≡◌, refl, inl, inr, ◌∙◌, Bool, true, false, ◌&&◌, ◌||◌, List, [], ◌∷◌, Option, none, some, Text,
  text_in, text_eq_iff, lookup, contains, erase, lookup-erase, is_some, if◌then◌else◌, Option-cases,
  arith,
}
use ida_multi_mcp.Index.Names.{is_valid_key, meta_name, vectors_name, is_shard_name}
use ida_multi_mcp.Index.{Files, Os, delete_all, delete_index, shard_paths, names_of}

module _ (os : Os) (can : (n : Text) → os.can_remove n ≡ true) where
  lookup-delete_all :
      (names : List Text) (removed : Bool) (d : Files) (a : Text)
      → lookup a (delete_all os names removed d).0 ≡ (if text_in a names then none else lookup a d)
  unfolding delete_all text_in
  lookup-delete_all [] removed d a = refl
  lookup-delete_all (name ∷ more) removed d a = elim (Option-cases (lookup name d)) [
    | inl e ↦ ground (arith, lookup-delete_all more removed d a, text_eq_iff name a)
    | inr (t, e) ↦
        rw (delete_all, e, can name)
          (lookup-delete_all more true (erase name d) a ∙ ground (arith, lookup-erase name a d))
  ]

  delete_all-some :
      (names : List Text) (removed : Bool) (d : Files)
      → is_some (delete_all os names removed d).1 ≡ true
  unfolding delete_all
  delete_all-some [] removed d = refl
  delete_all-some (name ∷ more) removed d = elim (Option-cases (lookup name d)) [
    | inl e ↦ rw (delete_all, is_some, e) (delete_all-some more removed d)
    | inr (t, e) ↦ rw (delete_all, is_some, e, can name) (delete_all-some more true (erase name d))
  ]

  text_in-shards :
      (key a : Text) (d : Files)
      → text_in a (names_of os (shard_paths os key d)) ≡ is_shard_name key a && contains a d
  unfolding shard_paths text_in lookup
  text_in-shards key a [] = ground arith
  text_in-shards key a ((n, t) ∷ d) = ground (arith, text_in-shards key a d, text_eq_iff n a)

  -- Under a valid key, if the files can be removed, deletion succeeds: the meta file, the vectors and
  -- every shard of the key are gone, and every other file is as before.
  pub lookup-delete_index :
      (key : Text) (d : Files)
      → is_valid_key key ≡ true
      → (r : Files × Option Bool) × (delete_index os key d ≡ some r)
        × (is_some r.1 ≡ true)
        × ((a : Text)
            → lookup a r.0 ≡ (
                if text_in a (meta_name key ∷ vectors_name key ∷ []) || is_shard_name key a
                then none
                else lookup a d))
  unfolding delete_index text_in
  lookup-delete_index key d k =
      let names = meta_name key ∷ vectors_name key ∷ names_of os (shard_paths os key d) in
      (
        delete_all os names false d,
        rw k refl,
        delete_all-some names false d,
        λ a. lookup-delete_all names false d a ∙ rw (text_in-shards key a d) (ground arith),
      )
