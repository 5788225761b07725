-- ===== src/Index/Names.antt =====
-- src/ida_multi_mcp/tools/index_store.py: keys and the names of files made from them.
use ida_multi_mcp.Prelude.{
  Bool, true, false, not, ◌&&◌, ◌||◌, [], ◌∷◌, ◌++◌, Text, text, text_in, ◌==◌,
}

-- `_UNSAFE_KEY_CHARS.search`: a slash, a backslash, a colon or NUL.
unfoldable pub has_unsafe : Text → Bool
has_unsafe [] = false
has_unsafe (c ∷ cs) = (c == b'/' || c == 92 || c == b':' || c == 0) || has_unsafe cs

-- `_validate_key`: whether it returns
unfoldable pub is_valid_key : Text → Bool
unfolding has_unsafe text_in
is_valid_key [] = false
is_valid_key (c ∷ cs) =
    not (text_in (c ∷ cs) (text "." ∷ text ".." ∷ [])) && not (has_unsafe (c ∷ cs))

-- `_meta_path`
abbrev pub meta_name : Text → Text
meta_name key = key ++ text ".json"

-- `_shard_path`
abbrev pub legacy_shard_name : Text → Text
legacy_shard_name key = key ++ text ".functions.jsonl"

-- `_new_shard_name`
abbrev pub new_shard_name : Text → Text → Text
new_shard_name key uuid = key ++ (text ".functions." ++ (uuid ++ text ".jsonl"))

-- `_vectors_path`
abbrev pub vectors_name : Text → Text
vectors_name key = key ++ text ".vectors.jsonl"

-- `n.startswith(p)`
unfoldable pub starts_with : Text → Text → Bool
starts_with n [] = true
starts_with [] (p ∷ ps) = false
starts_with (n ∷ ns) (p ∷ ps) = n == p && starts_with ns ps

-- `n.endswith(s)`
unfoldable pub ends_with : Text → Text → Bool
unfolding text_in
ends_with [] s = text_in [] (s ∷ [])
ends_with (n ∷ ns) s = text_in (n ∷ ns) (s ∷ []) || ends_with ns s

-- The test of `_shard_paths`.
unfoldable pub is_shard_name : Text → Text → Bool
unfolding starts_with ends_with
is_shard_name key n = starts_with n (key ++ text ".functions.") && ends_with n (text ".jsonl")
