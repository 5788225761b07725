-- ===== src/Registry/Schema.antt =====
-- The data of src/ida_multi_mcp/registry.py: what the JSON file holds, and the validation of its
-- entries. Python's Unicode tables, its IP parser and its ISO timestamps are parameters.
use ida_multi_mcp.Prelude.{
  ℕ, Bool, true, false, ◌&&◌, List, [], ◌∷◌, Option, none, some, ℤ, pos, negsuc, Text, text,
  text_in, strip, Dict, leb, or_default, if◌then◌else◌,
}
use ida_multi_mcp.InstanceId.{Digest}

-- The functions of Python's own library that the registry calls.
pub record Python : Type 0 where
  -- `str.isspace` of one character, `str.lower`, `str.casefold`
  pub is_space : ℕ → Bool
  pub lower : Text → Text
  pub casefold : Text → Text
  -- `ipaddress.ip_address(host).is_loopback`; `none` is the `ValueError`
  pub ip_loopback : Text → Option Bool
  -- `datetime.fromtimestamp(t, timezone.utc).isoformat()`, and back
  pub iso_timestamp : ℕ → Text
  pub from_iso : Text → Option ℕ
  pub digest : Digest

-- A JSON value under a key of an entry. Floats, arrays and objects are only passed on: `other` holds
-- their text.
pub data Value : Type 0 where
  null : Value
  flag : Bool → Value
  num : ℤ → Value
  str : Text → Value
  other : Text → Value

-- An entry of "instances": the keys that the code names, each with its value if it is there, and
-- the other keys.
pub record Info : Type 0 where
  pub pid : Option Value
  pub host : Option Value
  pub port : Option Value
  pub binary_name : Option Value
  pub binary_path : Option Value
  pub idb_path : Option Value
  pub arch : Option Value
  pub registered_at : Option Value
  pub last_heartbeat : Option Value
  pub extra : Dict Value

-- What may stand under an id in the file.
pub data RawEntry : Type 0 where
  object : Info → RawEntry
  not_object : RawEntry

-- An entry of "expired".
pub record Expired : Type 0 where
  pub binary_name : Option Value
  pub binary_path : Option Value
  pub expired_at : Option Value
  pub reason : Option Value
  pub replaced_by : Option Value
  pub extra : Dict Value

-- The registry as the methods see it.
pub record Data : Type 0 where
  pub instances : Dict Info
  pub active_instance : Option Text
  pub expired : Dict Expired

abbrev pub empty_data : Data
empty_data = record { instances = []; active_instance = none; expired = [] }

abbrev pub local_host : Text
local_host = text "127.0.0.1"

-- `ALLOWED_HOSTS`, and the same set under the name `_ALLOWED_HOSTS`
abbrev pub allowed_hosts : List Text
allowed_hosts = text "127.0.0.1" ∷ text "::1" ∷ text "localhost" ∷ []

abbrev pub max_instances : ℕ
max_instances = 100

abbrev pub max_expired : ℕ
max_expired = 200

-- `isinstance(v, int)` and the number: `bool` is a subclass of `int`.
abbrev pub as_int : Value → Option ℤ
as_int (num z) = some z
as_int (flag true) = some (pos 1)
as_int (flag false) = some (pos 0)
as_int _ = none

module _ (py : Python) where
  -- `_is_loopback_host`
  unfoldable pub is_loopback_host : Value → Bool
  unfolding text_in strip
  is_loopback_host (str []) = false
  is_loopback_host (str (c ∷ cs)) =
      let host = py.lower (strip py.is_space (c ∷ cs)) in
      if text_in host allowed_hosts then true else or_default (py.ip_loopback host) false
  is_loopback_host _ = false

  -- The test of the port: an integer from 1 to 65535.
  abbrev pub port_ok : Option ℤ → Bool
  port_ok none = false
  port_ok (some (pos n)) = leb 1 n && leb n 65535
  port_ok (some (negsuc n)) = false

  -- The test of the process id: absent, null, or an integer that is not negative.
  abbrev pub pid_ok : Option Value → Bool
  pid_ok none = true
  pid_ok (some null) = true
  pid_ok (some (num (negsuc n))) = false
  pid_ok (some (num (pos n))) = true
  pid_ok (some (flag b)) = true
  pid_ok (some _) = false

  -- `_validate_instance_entry`, for an object
  unfoldable pub is_valid_info : Info → Bool
  unfolding is_loopback_host
  is_valid_info e =
      port_ok (as_int (or_default e.port null))
      && is_loopback_host (or_default e.host (str local_host))
      && pid_ok e.pid

  -- The loop of `_load` that keeps the valid entries.
  unfoldable pub valid_instances : Dict RawEntry → Dict Info
  unfolding is_valid_info
  valid_instances [] = []
  valid_instances ((id, not_object) ∷ d) = valid_instances d
  valid_instances ((id, object e) ∷ d) =
      let rest = valid_instances d in if is_valid_info e then (id, e) ∷ rest else rest

  -- `_parse_timestamp`: what cannot be parsed, and what is no text, is very old.
  unfoldable pub parse_timestamp : Value → ℕ
  parse_timestamp (str t) = or_default (py.from_iso t) 0
  parse_timestamp _ = 0
