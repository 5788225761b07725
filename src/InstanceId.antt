-- ===== src/InstanceId.antt =====
-- src/ida_multi_mcp/instance_id.py: base-36 instance ids and the resolution of collisions.
-- The SHA-256 digest of "pid:port:idb_path" is a parameter.
pub mod Digits
pub mod Fresh
mod Tests
use ida_multi_mcp.Prelude.{
  ℕ, zero, suc, ◌+◌, ◌*◌, ◌/◌, ◌%◌, ◌^◌, Bool, true, false, ◌||◌, List, [], ◌∷◌, ◌++◌, Option, none,
  some, Text, text, text_in, take, get_or, if◌then◌else◌,
}

abbrev pub base36_chars : Text
base36_chars = text "0123456789abcdefghijklmnopqrstuvwxyz"

abbrev pub default_id_length : ℕ
default_id_length = 4

-- `hashlib.sha256(f"{pid}:{port}:{idb_path}".encode()).digest()`
abbrev pub Digest : Type 0
Digest = ℕ → ℕ → Text → List ℕ

-- `int.from_bytes(raw, "big")`, from the bytes read so far
unfoldable pub from_bytes : ℕ → List ℕ → ℕ
from_bytes acc [] = acc
from_bytes acc (b ∷ bs) = from_bytes (acc * 256 + b) bs

-- The `for` loop: `rounds` rounds are left.
unfoldable pub id_loop : ℕ → ℕ → Text → Text
id_loop zero n result = result
id_loop (suc rounds) n result = id_loop rounds (n / 36) (get_or base36_chars (n % 36) 0 ∷ result)

-- The number that the id spells.
unfoldable pub id_number : List ℕ → ℕ → ℕ
unfolding from_bytes
id_number raw size = from_bytes 0 (take 4 raw) % 36 ^ size

unfoldable pub generate_instance_id : Digest → ℕ → ℕ → Text → ℕ → Text
unfolding id_number id_loop
generate_instance_id digest pid port idb_path size =
    id_loop size (id_number (digest pid port idb_path) size) []

-- The last loop, over the suffixes that are left; `none` is the `RuntimeError`.
unfoldable pub try_suffixes : Text → List Text → Text → Option Text
unfolding text_in
try_suffixes candidate existing_ids [] = none
try_suffixes candidate existing_ids (c ∷ cs) =
    if text_in (candidate ++ c ∷ []) existing_ids
    then try_suffixes candidate existing_ids cs
    else some (candidate ++ c ∷ [])

unfoldable pub resolve_collision : Digest → Text → List Text → ℕ → ℕ → Text → Option Text
unfolding try_suffixes generate_instance_id
resolve_collision digest candidate existing_ids pid port idb_path =
    if text_in candidate existing_ids
    then (let expanded = generate_instance_id digest pid port idb_path (default_id_length + 1) in
        if text_in expanded existing_ids
        then try_suffixes candidate existing_ids base36_chars
        else some expanded)
    else some candidate
