-- ===== src/Registry/Changes.antt =====
-- What the methods of `InstanceRegistry` (src/ida_multi_mcp/registry.py) do to the loaded data,
-- between `_load` and `_save`. Times are read from the clock into natural numbers.
use ida_multi_mcp.Prelude.{
  ℕ, ◌+◌, Bool, false, not, List, [], ◌∷◌, Option, none, some, pos, Text, text, text_eq, text_in,
  Dict, lookup, contains, insert, erase, keys, length, keep_if, ltb, leb, or_default, if◌then◌else◌,
}
use ida_multi_mcp.InstanceId.{default_id_length, generate_instance_id, resolve_collision}
use ida_multi_mcp.Registry.Schema.{
  Python, Value, num, str, Info, Expired, Data, local_host, allowed_hosts, max_instances,
  max_expired, parse_timestamp,
}

-- The keyword arguments of `register`: those that it names, and the others.
pub record Metadata : Type 0 where
  pub host : Option Text
  pub binary_name : Option Value
  pub binary_path : Option Value
  pub arch : Option Value
  pub extra : Dict Value

pub data RegisterError : Type 0 where
  -- "Registry full"
  registry_full : RegisterError
  -- "Invalid host"
  invalid_host : Text → RegisterError
  -- "Cannot generate unique instance ID"
  no_unique_id : RegisterError

pub data Result {ℓ} (A : Type ℓ) : Type ℓ where
  ok : A → Result A
  raise : RegisterError → Result A

-- The keys of `instance_info` that extra metadata cannot set.
abbrev pub reserved_keys : List Text
reserved_keys =
    text "pid"
    ∷ text "host"
    ∷ text "port"
    ∷ text "binary_name"
    ∷ text "binary_path"
    ∷ text "idb_path"
    ∷ text "arch"
    ∷ text "registered_at"
    ∷ text "last_heartbeat"
    ∷ []

unfoldable pub instance_info : Python → ℕ → ℕ → ℕ → Text → Text → Metadata → Info
unfolding text_in
instance_info py now pid port host idb_path meta = record {
  pid = some (num (pos pid));
  host = some (str host);
  port = some (num (pos port));
  binary_name = some (or_default meta.binary_name (str (text "unknown")));
  binary_path = some (or_default meta.binary_path (str []));
  idb_path = some (str idb_path);
  arch = some (or_default meta.arch (str (text "unknown")));
  registered_at = some (str (py.iso_timestamp now));
  last_heartbeat = some (str (py.iso_timestamp now));
  extra = keep_if (λ kv. not (text_in kv.0 reserved_keys)) meta.extra;
}

-- `if data["active_instance"] is None: data["active_instance"] = instance_id`
unfoldable pub add_instance : Data → Text → Info → Data
add_instance d id info = record d {
  instances = insert id info d.instances;
  active_instance = some (or_default d.active_instance id);
}

-- `register`, from the loaded data; its calls of `_iso_timestamp` share one reading of the clock
unfoldable pub register_in : Python → ℕ → Data → ℕ → ℕ → Text → Metadata → Result (Data × Text)
unfolding add_instance instance_info resolve_collision generate_instance_id text_in
register_in py now d pid port idb_path meta =
    if leb max_instances (length d.instances)
    then raise registry_full
    else (let host = or_default meta.host local_host in
        if text_in host allowed_hosts
        then (elim (resolve_collision py.digest
            (generate_instance_id py.digest pid port idb_path default_id_length) (keys d.instances)
            pid port idb_path) [
              | none ↦ raise no_unique_id
              | some id ↦
                  ok (add_instance d id (instance_info py now pid port host idb_path meta), id)
            ])
        else raise (invalid_host host))

-- `remaining[0] if remaining else None`
abbrev pub first_key {ℓ} : {V : Type ℓ} → Dict V → Option Text
first_key [] = none
first_key ((k, v) ∷ d) = some k

-- `data["active_instance"] == instance_id`
abbrev pub is_active : Option Text → Text → Bool
is_active none id = false
is_active (some a) id = text_eq a id

-- `del data["instances"][instance_id]`, and the choice of another active instance
unfoldable pub remove_instance : Data → Text → Data
remove_instance d id =
    let rest = erase id d.instances in
    record d {
      instances = rest;
      active_instance =
          if is_active d.active_instance id then first_key rest else d.active_instance;
    }

-- `unregister`; `none` where it returns `False` and saves nothing
unfoldable pub unregister_in : Data → Text → Option Data
unfolding remove_instance
unregister_in d id = if contains id d.instances then some (remove_instance d id) else none

unfoldable pub update_heartbeat_in : Python → ℕ → Data → Text → Option Data
update_heartbeat_in py now d id = elim (lookup id d.instances) [
  | none ↦ none
  | some info ↦ some (record d {
    instances =
        insert id (record info { last_heartbeat = some (str (py.iso_timestamp now)) }) d.instances;
  })
]

unfoldable pub set_active_in : Data → Text → Option Data
set_active_in d id =
    if contains id d.instances then some (record d { active_instance = some id }) else none

-- `expired_info`, in `expire_instance` and in `cleanup_stale`
unfoldable pub expired_info : Python → ℕ → Info → Text → Option Text → Expired
expired_info py now info reason replaced_by = record {
  binary_name = some (or_default info.binary_name (str (text "unknown")));
  binary_path = some (or_default info.binary_path (str []));
  expired_at = some (str (py.iso_timestamp now));
  reason = some (str reason);
  replaced_by = elim replaced_by [ none ↦ none | some r ↦ some (str r) ];
  extra = [];
}

unfoldable pub expire_instance_in : Python → ℕ → Data → Text → Text → Option Text → Option Data
unfolding expired_info remove_instance
expire_instance_in py now d id reason replaced_by = elim (lookup id d.instances) [
  | none ↦ none
  | some info ↦ some (
      remove_instance
        (record d { expired = insert id (expired_info py now info reason replaced_by) d.expired })
        id)
]

-- `now - expired_at > max_age_seconds`
abbrev pub is_old : Python → ℕ → ℕ → Value → Bool
is_old py now age stamp = ltb (parse_timestamp py stamp + age) now

-- The first loop of `cleanup_expired`: what is kept, and how many were removed.
unfoldable pub drop_old : Python → ℕ → ℕ → Dict Expired → Dict Expired × ℕ
unfolding parse_timestamp
drop_old py now age [] = ([], 0)
drop_old py now age ((id, e) ∷ d) =
    let (rest, count) = drop_old py now age d in
    if is_old py now age (or_default e.expired_at (str []))
    then (rest, count + 1)
    else ((id, e) ∷ rest, count)

-- `while len(expired) > MAX_EXPIRED`: the oldest entry goes.
unfoldable pub cap_expired : Dict Expired → Dict Expired × ℕ
cap_expired [] = ([], 0)
cap_expired (e ∷ d) =
    let (rest, count) = cap_expired d in
    if ltb max_expired (length (e ∷ d)) then (rest, count + 1) else (e ∷ d, 0)

unfoldable pub cleanup_expired_in : Python → ℕ → ℕ → Data → Data × ℕ
unfolding drop_old cap_expired
cleanup_expired_in py now age d =
    let (young, aged) = drop_old py now age d.expired in
    let (kept, surplus) = cap_expired young in (record d { expired = kept }, aged + surplus)

-- The body of the loop of `cleanup_stale` for a stale instance.
unfoldable pub expire_one : Python → ℕ → Data → Text → Info → Data
unfolding expired_info
expire_one py now d id info = record d {
  instances = erase id d.instances;
  expired = insert id (expired_info py now info (text "stale_heartbeat") none) d.expired;
}

-- The loop of `cleanup_stale` over a copy of the instances: what is left of the data, and the ids
-- that went, in order.
unfoldable pub expire_stale : Python → ℕ → ℕ → Dict Info → Data → Data × List Text
unfolding parse_timestamp expire_one
expire_stale py now timeout [] d = (d, [])
expire_stale py now timeout ((id, info) ∷ more) d =
    let is_stale = is_old py now timeout (or_default info.last_heartbeat (str [])) in
    let d' = (if is_stale then expire_one py now d id info else d) in
    let (last, stale) = expire_stale py now timeout more d' in
    (last, if is_stale then id ∷ stale else stale)

-- `data["active_instance"] in stale`
abbrev pub active_in : Option Text → List Text → Bool
active_in none stale = false
active_in (some a) stale = text_in a stale

unfoldable pub cleanup_stale_in : Python → ℕ → ℕ → Data → Data × List Text
unfolding expire_stale text_in
cleanup_stale_in py now timeout d =
    let (d', stale) = expire_stale py now timeout d.instances d in
    (
      record d' {
        active_instance =
            if active_in d'.active_instance stale
            then first_key d'.instances
            else d'.active_instance;
      },
      stale,
    )
