-- ===== src/InstanceId/Tests.antt =====
-- Runs of src/ida_multi_mcp/instance_id.py on small inputs.
use ida_multi_mcp.Prelude.{
  ◌≡◌, refl, List, [], ◌∷◌, ◌++◌, none, some, Text, text, length, text_in, text_eq, false, map,
}
use ida_multi_mcp.Samples.{python}
use ida_multi_mcp.InstanceId.{base36_chars, id_number, generate_instance_id, resolve_collision}
use ida_multi_mcp.InstanceId.Digits.{All, Base36, decode, generate_instance_id_lem}
use ida_multi_mcp.InstanceId.Fresh.{resolve_collision-fresh}

-- sha256 replaced by the bytes pid, port, 7, 9
abbrev path : Text
path = text "/tmp/a.i64"

id_of_sample : generate_instance_id python.digest 1 2 path 4 ≡ text "2fwp"
unfolding generate_instance_id
id_of_sample = refl

generate_instance_id_lem_example :
    let id = generate_instance_id python.digest 1 2 path 4 in
    (length id ≡ 4) × All Base36 id × (decode id ≡ id_number (python.digest 1 2 path) 4)
generate_instance_id_lem_example = generate_instance_id_lem python.digest 1 2 path 4

collides :
    resolve_collision python.digest (text "zzzz") (text "zzzz" ∷ []) 1 2 path ≡ some (text "a2fwp")
unfolding resolve_collision text_in text_eq
collides = refl

resolve_collision-fresh_example : text_in (text "a2fwp") (text "zzzz" ∷ []) ≡ false
resolve_collision-fresh_example =
    resolve_collision-fresh python.digest (text "zzzz") (text "zzzz" ∷ []) 1 2 path collides

-- Everything is taken.
abbrev crowded : List Text
crowded = text "z" ∷ text "a2fwp" ∷ map (λ c. text "z" ++ c ∷ []) base36_chars

exhausted : resolve_collision python.digest (text "z") crowded 1 2 path ≡ none
unfolding resolve_collision text_in text_eq
exhausted = refl
