-- ===== src/Registry/Api.antt =====
-- The methods of `InstanceRegistry` (src/ida_multi_mcp/registry.py) on the file: each loads,
-- changes and saves under the file lock, and returns the new store beside its result.
use ida_multi_mcp.Prelude.{ℕ, Bool, true, false, List, Option, none, some, Text, Dict, lookup}
use ida_multi_mcp.Registry.Schema.{Python, Info, Expired, Data}
use ida_multi_mcp.Registry.Disk.{Store, load, save, snapshot}
use ida_multi_mcp.Registry.Changes.{
  Metadata, Result, ok, raise, register_in, unregister_in, update_heartbeat_in, set_active_in,
  expire_instance_in, cleanup_expired_in, cleanup_stale_in,
}

module _ (py : Python) where
  -- `_save(data); return True`, or `return False`
  abbrev pub commit : Store → Option Data → Store × Bool
  commit s none = (s, false)
  commit s (some d) = (save s d, true)

  abbrev pub registered : Store → Result (Data × Text) → Store × Result Text
  registered s (raise e) = (s, raise e)
  registered s (ok (d, id)) = (save s d, ok id)

  unfoldable pub register : Store → ℕ → ℕ → ℕ → Text → Metadata → Store × Result Text
  register s now pid port idb_path meta =
      let (s', d) = load py s in registered s' (register_in py now d pid port idb_path meta)

  unfoldable pub unregister : Store → Text → Store × Bool
  unregister s id = let (s', d) = load py s in commit s' (unregister_in d id)

  unfoldable pub update_heartbeat : Store → ℕ → Text → Store × Bool
  update_heartbeat s now id = let (s', d) = load py s in commit s' (update_heartbeat_in py now d id)

  unfoldable pub set_active : Store → Text → Store × Bool
  set_active s id = let (s', d) = load py s in commit s' (set_active_in d id)

  unfoldable pub expire_instance : Store → ℕ → Text → Text → Option Text → Store × Bool
  expire_instance s now id reason replaced_by =
      let (s', d) = load py s in commit s' (expire_instance_in py now d id reason replaced_by)

  unfoldable pub cleanup_expired : Store → ℕ → ℕ → Store × ℕ
  cleanup_expired s now age =
      let (s', d) = load py s in
      let (d', removed) = cleanup_expired_in py now age d in (save s' d', removed)

  unfoldable pub cleanup_stale : Store → ℕ → ℕ → Store × List Text
  cleanup_stale s now timeout =
      let (s', d) = load py s in
      let (d', stale) = cleanup_stale_in py now timeout d in (save s' d', stale)

  unfoldable pub get_instance : Store → Text → Store × Option Info
  get_instance s id = let (s', d) = snapshot py s in (s', lookup id d.instances)

  unfoldable pub list_instances : Store → Store × Dict Info
  list_instances s = let (s', d) = snapshot py s in (s', d.instances)

  unfoldable pub get_active : Store → Store × Option Text
  get_active s = let (s', d) = snapshot py s in (s', d.active_instance)

  unfoldable pub get_expired : Store → Text → Store × Option Expired
  get_expired s id = let (s', d) = snapshot py s in (s', lookup id d.expired)
