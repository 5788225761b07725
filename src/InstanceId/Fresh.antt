-- ===== src/InstanceId/Fresh.antt =====
-- What `resolve_collision` of src/ida_multi_mcp/instance_id.py returns.
use ida_multi_mcp.Prelude.{
  ℕ, ◌+◌, ◌≡◌, true, false, List, [], ◌∷◌, ◌++◌, none, some, text_in, Text, arith,
}
use ida_multi_mcp.InstanceId.{
  base36_chars, default_id_length, Digest, generate_instance_id, try_suffixes, resolve_collision,
}

-- Every candidate with one of the suffixes is taken.
abbrev pub AllTaken : Text → List Text → Text → Type 0
AllTaken candidate ids [] = Unit {0}
AllTaken candidate ids (c ∷ cs) =
    (text_in (candidate ++ c ∷ []) ids ≡ true) × AllTaken candidate ids cs

try_suffixes-fresh :
    (candidate : Text) (ids : List Text) (cs : Text) (id : Text)
    → try_suffixes candidate ids cs ≡ some id
    → text_in id ids ≡ false
unfolding try_suffixes
try_suffixes-fresh candidate ids [] id h = cc
try_suffixes-fresh candidate ids (c ∷ cs) id h =
    ground (arith, try_suffixes-fresh candidate ids cs id)

try_suffixes-none :
    (candidate : Text) (ids : List Text) (cs : Text)
    → try_suffixes candidate ids cs ≡ none
    → AllTaken candidate ids cs
unfolding try_suffixes
try_suffixes-none candidate ids [] h = tt
try_suffixes-none candidate ids (c ∷ cs) h = ground (arith, try_suffixes-none candidate ids cs)

module _ (digest : Digest) (candidate : Text) (ids : List Text) (pid port : ℕ) (path : Text) where
  -- The id that a registration gets is not among the existing ids.
  pub resolve_collision-fresh :
      {id : Text}
      → resolve_collision digest candidate ids pid port path ≡ some id
      → text_in id ids ≡ false
  unfolding resolve_collision
  resolve_collision-fresh {id} h = ground (arith, try_suffixes-fresh candidate ids base36_chars id)

  -- It fails only if the candidate, its five-character form and all 36 suffixed forms are taken.
  pub resolve_collision-none :
      resolve_collision digest candidate ids pid port path ≡ none
      → (text_in candidate ids ≡ true)
        × (text_in (generate_instance_id digest pid port path (default_id_length + 1)) ids ≡ true)
        × AllTaken candidate ids base36_chars
  unfolding resolve_collision
  resolve_collision-none h = ground (arith, try_suffixes-none candidate ids base36_chars)
