-- ===== src/Router/Names.antt =====
-- `_normalize_binary_name` of src/ida_multi_mcp/router.py: file names compared without their folder,
-- white space or case. Names are texts or null: for another true value, on which the code raises an
-- `AttributeError`, the model has no name. `os.path.basename` is that of POSIX.
use ida_multi_mcp.Prelude.{
  ◌==◌, Bool, false, ◌||◌, [], ◌∷◌, Option, none, some, Text, strip, if◌then◌else◌,
}
use ida_multi_mcp.Registry.Schema.{Python, Value, str}

-- `name.replace("\\\\", "/")`
unfoldable pub to_slashes : Text → Text
to_slashes [] = []
to_slashes (c ∷ cs) = (if c == 92 then 47 else c) ∷ to_slashes cs

-- `"/" in name`
unfoldable pub has_slash : Text → Bool
has_slash [] = false
has_slash (c ∷ cs) = c == 47 || has_slash cs

-- `os.path.basename`
unfoldable pub basename : Text → Text
unfolding has_slash
basename [] = []
basename (c ∷ cs) =
    let rest = basename cs in if has_slash cs then rest else if c == 47 then cs else c ∷ cs

module _ (py : Python) where
  -- `normalized.casefold() if normalized else None`
  abbrev pub folded : Text → Option Text
  folded [] = none
  folded (c ∷ cs) = some (py.casefold (c ∷ cs))

  unfoldable pub normalize_binary_name : Value → Option Text
  unfolding to_slashes basename strip
  normalize_binary_name (str []) = none
  normalize_binary_name (str (c ∷ cs)) = folded (strip py.is_space (basename (to_slashes (c ∷ cs))))
  normalize_binary_name _ = none
