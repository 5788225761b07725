-- ===== src/Registry/Tests.antt =====
-- Runs of src/ida_multi_mcp/registry.py on small registries.
use ida_multi_mcp.Prelude.{
  ◌+◌, ◌-◌, ◌≤◌, ◌<◌, ◌≡◌, refl, true, false, not, List, [], ◌∷◌, none, some, Text, text, text_eq,
  text_in, lookup, contains, insert, erase, length, drop, keep_if, if◌then◌else◌, arith,
}
use ida_multi_mcp.InstanceId.{generate_instance_id, resolve_collision}
use ida_multi_mcp.Registry.Schema.{
  Expired, empty_data, local_host, allowed_hosts, max_instances, max_expired, parse_timestamp,
}
use ida_multi_mcp.Registry.Disk.{json, to_root}
use ida_multi_mcp.Registry.Changes.{
  ok, instance_info, add_instance, register_in, cleanup_expired_in, expire_one, expire_stale,
  cleanup_stale_in,
}
use ida_multi_mcp.Samples.{
  python, first_id, second_id, plain_hosts, two_instances, new_store, no_metadata,
}
use ida_multi_mcp.Registry.Invariant.{IsValid}
use ida_multi_mcp.Registry.Stale.{is_stale, cleanup_stale_in_lem}
use ida_multi_mcp.Registry.Expiry.{is_aged, cleanup_expired_in_lem}
use ida_multi_mcp.Registry.Coherence.{contents}
use ida_multi_mcp.Registry.Refinement.{
  Event, registers, beats, expires, sweeps_stale, reads, elsewhere, change, Refines, run, changes,
  run-changes,
}
use ida_multi_mcp.Registry.Safety.{change-IsValid, register_in_lem}

two-IsValid : IsValid two_instances
unfolding lookup text_eq
two-IsValid = record {
  ids = (refl, (refl, tt));
  expired_ids = tt;
  elected = refl;
  bounded = omega arith;
}

abbrev path : Text
path = text "/tmp/a.i64"

-- A registration, a write by another process, a heartbeat of an id that is gone, and a sweep.
abbrev history : List Event
history =
    registers 5 100 13337 path no_metadata
    ∷ reads
    ∷ elsewhere (json (to_root two_instances))
    ∷ beats 9 (text "gone")
    ∷ sweeps_stale 400 120
    ∷ []

run-changes_example :
    Refines python
      (run python new_store history)
      (changes python (contents python new_store) history)
run-changes_example =
    run-changes python new_store history plain_hosts
      ((omega arith, omega arith), (tt, (tt, (tt, (tt, tt))))) tt

change-IsValid_example :
    IsValid (change python two_instances (expires 9 first_id (text "gone") none))
change-IsValid_example =
    change-IsValid python two_instances (expires 9 first_id (text "gone") none) tt two-IsValid

registered_sample :
    register_in python 5 empty_data 100 13337 path no_metadata
    ≡ ok (
      add_instance empty_data
          (text "9frd")
          (instance_info python 5 100 13337 local_host path no_metadata),
      text "9frd",
    )
unfolding register_in resolve_collision text_in text_eq generate_instance_id
registered_sample = refl

register_in_lem_example :
    (length empty_data.instances < max_instances)
    × (text_in local_host allowed_hosts ≡ true)
    × (contains (text "9frd") empty_data.instances ≡ false)
    × (lookup
          (text "9frd")
          (add_instance empty_data
            (text "9frd")
            (instance_info python 5 100 13337 local_host path no_metadata)).instances
        ≡ some (instance_info python 5 100 13337 local_host path no_metadata))
    × ((j : Text)
        → text_eq (text "9frd") j ≡ false
        → lookup j
            (add_instance empty_data
              (text "9frd")
              (instance_info python 5 100 13337 local_host path no_metadata)).instances
          ≡ lookup j empty_data.instances)
register_in_lem_example =
    register_in_lem python 5 empty_data 100 13337 path no_metadata registered_sample

cleanup_stale_in_lem_example :
    let (d', stale) = cleanup_stale_in python 400 120 two_instances in
    (text_in first_id stale ≡ is_stale python 400 120 (lookup first_id two_instances.instances))
    × (lookup first_id d'.instances ≡ (
        if is_stale python 400 120 (lookup first_id two_instances.instances)
        then none
        else lookup first_id two_instances.instances))
cleanup_stale_in_lem_example =
    cleanup_stale_in_lem python 400 120 two_instances two-IsValid first_id

-- The first instance goes, and the second one becomes active.
swept :
    ((cleanup_stale_in python 400 120 two_instances).1 ≡ first_id ∷ [])
    × ((cleanup_stale_in python 400 120 two_instances).0.active_instance ≡ some second_id)
unfolding cleanup_stale_in expire_stale parse_timestamp expire_one text_in text_eq erase insert
swept = (refl, refl)

cleanup_expired_in_lem_example :
    let (d', removed) = cleanup_expired_in python 400 120 two_instances in
    let young =
      keep_if (λ (ke : Text × Expired). not (is_aged python 400 120 ke.1)) two_instances.expired in
    (d'.expired ≡ drop (length young - max_expired) young)
    × (length d'.expired ≤ max_expired)
    × (length d'.expired + removed ≡ length two_instances.expired)
    × (d'.instances ≡ two_instances.instances)
    × (d'.active_instance ≡ two_instances.active_instance)
cleanup_expired_in_lem_example = cleanup_expired_in_lem python 400 120 two_instances
