-- ===== src/Health/Tests.antt =====
-- Runs of src/ida_multi_mcp/health.py on small registries.
use ida_multi_mcp.Prelude.{
  ◌≡◌, refl, false, none, pos, negsuc, text_eq, text_in, strip, lookup, Distinct, ltb,
  if◌then◌else◌,
}
use ida_multi_mcp.Registry.Schema.{valid_instances, is_valid_info, is_loopback_host}
use ida_multi_mcp.Registry.Disk.{Store, json, to_root, normalise, as_raw}
use ida_multi_mcp.Registry.Coherence.{contents}
use ida_multi_mcp.Samples.{python, first_id, two_instances, new_store}
use ida_multi_mcp.Health.{World, cleanup_stale_instances}
use ida_multi_mcp.Health.Sweep.{dead, cleanup_stale_instances_lem}

-- Process 100 is dead; nobody answers.
abbrev world : World
world = record {
  is_process_alive = λ p. elim p [ pos n ↦ ltb 100 n | negsuc n ↦ false ];
  ping = λ h p. false;
  read_metadata = λ h p. none;
}

-- The file holds two instances; nothing is cached yet.
abbrev store : Store
store = record new_store { file = json (to_root two_instances) }

two_ids : Distinct (contents python store).instances
unfolding normalise valid_instances is_valid_info is_loopback_host as_raw lookup text_eq text_in
    strip
two_ids = (refl, (refl, tt))

cleanup_stale_instances_lem_example :
    let (s', removed) = cleanup_stale_instances python world 9 store in
    (text_in first_id removed ≡ dead world (lookup first_id (contents python store).instances))
    × (lookup first_id (contents python s').instances ≡ (
        if dead world (lookup first_id (contents python store).instances)
        then none
        else lookup first_id (contents python store).instances))
cleanup_stale_instances_lem_example =
    cleanup_stale_instances_lem python world 9 store tt two_ids first_id
