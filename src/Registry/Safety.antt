-- ===== src/Registry/Safety.antt =====
-- What the calls of src/ida_multi_mcp/registry.py guarantee about the registry's data.
use ida_multi_mcp.Prelude.{
  ℕ, ◌<◌, ◌≡◌, refl, sym, ap, ◌∙◌, inl, inr, true, false, Option, none, some, Text, text_eq,
  text_eq_refl, text_in, lookup, contains, keys, length, or_default, Option-cases, arith,
  text_in-keys, lookup-insert,
}
use ida_multi_mcp.InstanceId.{generate_instance_id, resolve_collision, default_id_length}
use ida_multi_mcp.InstanceId.Fresh.{resolve_collision-fresh}
use ida_multi_mcp.Registry.Schema.{Python, Data, local_host, allowed_hosts, max_instances}
use ida_multi_mcp.Registry.Disk.{Store}
use ida_multi_mcp.Registry.Changes.{
  Metadata, Result, ok, raise, instance_info, add_instance, register_in, unregister_in,
  update_heartbeat_in, set_active_in, expire_instance_in,
}
use ida_multi_mcp.Registry.Api.{get_instance, list_instances, get_active, get_expired}
use ida_multi_mcp.Registry.Invariant.{
  IsValid, register_in-IsValid, unregister_in-IsValid, update_heartbeat_in-IsValid,
  set_active_in-IsValid, expire_instance_in-IsValid,
}
use ida_multi_mcp.Registry.Stale.{cleanup_stale_in-IsValid}
use ida_multi_mcp.Registry.Expiry.{cleanup_expired_in-IsValid}
use ida_multi_mcp.Registry.Coherence.{contents, IsCoherent}
use ida_multi_mcp.Registry.Refinement.{
  Event, registers, unregisters, beats, activates, expires, sweeps_expired, sweeps_stale, reads,
  elsewhere, change, or_same, data_of, snapshot-Refines,
}

-- A call of the registry's own methods.
abbrev pub IsOwn : Event → Type 0
IsOwn (elsewhere f) = ⊥
IsOwn _ = Unit {0}

or_same-IsValid :
    (py : Python) (d : Data) (o : Option Data)
    → ((d' : Data) → o ≡ some d' → IsValid d')
    → IsValid d
    → IsValid (or_same py d o)
or_same-IsValid py d none h v = v
or_same-IsValid py d (some d') h v = h d' refl

data_of-IsValid :
    (py : Python) (d : Data) (r : Result (Data × Text))
    → ((d' : Data) (id : Text) → r ≡ ok (d', id) → IsValid d')
    → IsValid d
    → IsValid (data_of py d r)
data_of-IsValid py d (raise e) h v = v
data_of-IsValid py d (ok (d', id)) h v = h d' id refl

-- Every method, whether it succeeds or fails, keeps: each id once, at most 100 instances, and an
-- active instance that is registered, and that is absent only if no instance is registered.
pub change-IsValid :
    (py : Python) (d : Data) (ev : Event) → IsOwn ev → IsValid d → IsValid (change py d ev)
unfolding change
change-IsValid py d (registers now pid port path meta) own v =
    data_of-IsValid py d (register_in py now d pid port path meta)
      (λ d' id e. register_in-IsValid py now d pid port path meta e v) v
change-IsValid py d (unregisters id) own v =
    or_same-IsValid py d (unregister_in d id) (λ d' e. unregister_in-IsValid d id e v) v
change-IsValid py d (beats now id) own v =
    or_same-IsValid py d (update_heartbeat_in py now d id)
      (λ d' e. update_heartbeat_in-IsValid py now d id e v) v
change-IsValid py d (activates id) own v =
    or_same-IsValid py d (set_active_in d id) (λ d' e. set_active_in-IsValid d id e v) v
change-IsValid py d (expires now id reason by) own v =
    or_same-IsValid py d (expire_instance_in py now d id reason by)
      (λ d' e. expire_instance_in-IsValid py now d id reason by e v) v
change-IsValid py d (sweeps_expired now age) own v = cleanup_expired_in-IsValid py now age d v
change-IsValid py d (sweeps_stale now timeout) own v = cleanup_stale_in-IsValid py now timeout d v
change-IsValid py d reads own v = v
change-IsValid py d (elsewhere f) own v = absurd own

-- Inversion of a successful registration, given the id that was resolved.
registered_as :
    (py : Python) (now : ℕ) (d : Data) (pid port : ℕ) (path : Text) (meta : Metadata) {d' : Data}
    {id i : Text}
    → resolve_collision py.digest
        (generate_instance_id py.digest pid port path default_id_length)
        (keys d.instances)
        pid
        port
        path
      ≡ some i
    → register_in py now d pid port path meta ≡ ok (d', id)
    → let host = or_default meta.host local_host in
      (length d.instances < max_instances)
      × (text_in host allowed_hosts ≡ true)
      × (i ≡ id)
      × (d' ≡ add_instance d i (instance_info py now pid port host path meta))
unfolding register_in
registered_as py now d pid port path meta e h = ground arith

-- A registration that succeeds was made below the limit of 100 and for a loopback host; it yields
-- an id that was free, under which the instance's data are stored, and leaves every other id as it
-- was.
pub register_in_lem :
    (py : Python) (now : ℕ) (d : Data) (pid port : ℕ) (path : Text) (meta : Metadata) {d' : Data}
    {id : Text}
    → register_in py now d pid port path meta ≡ ok (d', id)
    → let host = or_default meta.host local_host in
      (length d.instances < max_instances)
      × (text_in host allowed_hosts ≡ true)
      × (contains id d.instances ≡ false)
      × (lookup id d'.instances ≡ some (instance_info py now pid port host path meta))
      × ((j : Text) → text_eq id j ≡ false → lookup j d'.instances ≡ lookup j d.instances)
unfolding register_in add_instance
register_in_lem py now d pid port path meta {d'} {id} h =
    let cand = generate_instance_id py.digest pid port path default_id_length in
    elim (Option-cases (resolve_collision py.digest cand (keys d.instances) pid port path)) [
      | inl e ↦ absurd (ground arith)
      | inr (i, e) ↦
          let inv = registered_as py now d pid port path meta e h in
          let info = instance_info py now pid port (or_default meta.host local_host) path meta in
          let free : contains i d.instances ≡ false =
            sym (text_in-keys i d.instances)
            ∙ resolve_collision-fresh py.digest cand (keys d.instances) pid port path e in
          (
            inv.0,
            inv.1,
            rw (← inv.2) free,
            rw (inv.3, ← inv.2, lookup-insert) (rw (text_eq_refl i)),
            λ j ne. rw (inv.3, lookup-insert, inv.2) (rw ne),
          )
    ]

-- Each read returns what the file holds at that moment.
pub reads_lem :
    (py : Python) (s : Store) (id : Text)
    → IsCoherent py s
    → ((get_instance py s id).1 ≡ lookup id (contents py s).instances)
      × ((list_instances py s).1 ≡ (contents py s).instances)
      × ((get_active py s).1 ≡ (contents py s).active_instance)
      × ((get_expired py s id).1 ≡ lookup id (contents py s).expired)
unfolding get_instance list_instances get_active get_expired
reads_lem py s id c =
    let e = (snapshot-Refines py s c).0 in
    (
      ap (λ (d : Data). lookup id d.instances) e,
      ap (λ (d : Data). d.instances) e,
      ap (λ (d : Data). d.active_instance) e,
      ap (λ (d : Data). lookup id d.expired) e,
    )
