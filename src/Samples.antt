-- ===== src/Samples.antt =====
-- Concrete values for the tests: an ASCII stand-in for Python's text functions, and a few entries
-- of src/ida_multi_mcp/registry.py.
use ida_multi_mcp.Prelude.{
  ℕ, ◌==◌, ◌≡◌, [], ◌∷◌, Option, none, some, pos, true, Text, text, text_eq, text_eq_iff, text_in,
  strip, Bool-cases, inl, inr, refl, arith,
}
use mathlib.Core.Path.{subst}
use ida_multi_mcp.Registry.Valid.{HostsArePlain}
use ida_multi_mcp.Registry.Schema.{Python, num, str, Info, Data, local_host, allowed_hosts}
use ida_multi_mcp.Registry.Disk.{Store, missing}
use ida_multi_mcp.Registry.Changes.{Metadata}

abbrev pub first_of_text : Text → Option ℕ
first_of_text [] = none
first_of_text (c ∷ cs) = some c

-- A timestamp is one character.
abbrev pub python : Python
python = record {
  is_space = λ c. c == 32;
  lower = λ t. t;
  casefold = λ t. t;
  ip_loopback = λ t. none;
  iso_timestamp = λ t. t ∷ [];
  from_iso = first_of_text;
  digest = λ pid port path. pid ∷ port ∷ 7 ∷ 9 ∷ [];
}

abbrev pub instance_at : ℕ → Text → ℕ → Info
instance_at pid name beat = record {
  pid = some (num (pos pid));
  host = some (str local_host);
  port = some (num (pos 13337));
  binary_name = some (str name);
  binary_path = none;
  idb_path = none;
  arch = none;
  registered_at = none;
  last_heartbeat = some (str (beat ∷ []));
  extra = [];
}

abbrev pub first_id : Text
first_id = text "aaaa"

abbrev pub second_id : Text
second_id = text "bbbb"

abbrev pub first_info : Info
first_info = instance_at 100 (text "a.exe") 10

abbrev pub second_info : Info
second_info = instance_at 200 (text "b.exe") 500

abbrev pub two_instances : Data
two_instances = record {
  instances = (first_id, first_info) ∷ (second_id, second_info) ∷ [];
  active_instance = some first_id;
  expired = [];
}

abbrev pub new_store : Store
new_store = record {
  file = missing;
  stamp = 0;
  can_quarantine = true;
  cached_data = none;
  cached_sig = none;
}

abbrev pub no_metadata : Metadata
no_metadata = record {
  host = none;
  binary_name = none;
  binary_path = none;
  arch = none;
  extra = [];
}

stripped :
    (a h : Text) → strip python.is_space a ≡ a → text_eq a h ≡ true → strip python.is_space h ≡ h
stripped a h p e = subst (λ t. strip python.is_space t ≡ t) ((text_eq_iff a h).0 e) p

plain_table : (h : Text) → text_in h allowed_hosts ≡ true → strip python.is_space h ≡ h
unfolding text_in strip
plain_table h e = elim (Bool-cases (text_eq (text "127.0.0.1") h)) [
  | inl v4 ↦ stripped (text "127.0.0.1") h refl v4
  | inr rest ↦ elim (Bool-cases (text_eq (text "::1") h)) [
    | inl v6 ↦ stripped (text "::1") h refl v6
    | inr more ↦ stripped (text "localhost") h refl (ground arith)
  ]
]

pub plain_hosts : HostsArePlain python
plain_hosts = record { plain = plain_table }
