-- ===== src/Registry/Valid.antt =====
-- The changes of src/ida_multi_mcp/registry.py keep every entry valid for `_load`.
use ida_multi_mcp.Prelude.{
  ℕ, ◌≤◌, ◌≡◌, inl, inr, true, [], ◌∷◌, Option, some, Text, text_eq, text_in, strip, Dict, lookup,
  insert, erase, keys, or_default, Option-cases, arith,
}
use ida_multi_mcp.InstanceId.{generate_instance_id, resolve_collision, default_id_length}
use ida_multi_mcp.Registry.Schema.{
  Python, str, Info, Data, local_host, allowed_hosts, is_valid_info, is_loopback_host,
}
use ida_multi_mcp.Registry.Changes.{
  Metadata, ok, instance_info, add_instance, register_in, remove_instance, unregister_in,
  update_heartbeat_in, set_active_in, expire_instance_in, expire_one, expire_stale,
}
use ida_multi_mcp.Registry.Coherence.{AllValid}

-- The allowed hosts have no white space and no capitals.
pub record HostsArePlain (py : Python) : Type 0 where
  pub plain : (h : Text) → text_in h allowed_hosts ≡ true → py.lower (strip py.is_space h) ≡ h

module _ (py : Python) (plain : HostsArePlain py) where
  host-loopback : (h : Text) → text_in h allowed_hosts ≡ true → is_loopback_host py (str h) ≡ true
  unfolding is_loopback_host text_in text_eq
  host-loopback [] t = cc
  host-loopback (c ∷ cs) t = rw (plain.plain (c ∷ cs) t, t)

module _ (py : Python) where
  pub AllValid-insert :
      (id : Text) (e : Info) (d : Dict Info)
      → is_valid_info py e ≡ true
      → AllValid py d
      → AllValid py (insert id e d)
  unfolding insert
  AllValid-insert id e [] h v = (h, tt)
  AllValid-insert id e ((j, x) ∷ d) h v = ground (arith, AllValid-insert id e d h v.1)

  pub AllValid-erase : (id : Text) (d : Dict Info) → AllValid py d → AllValid py (erase id d)
  unfolding erase
  AllValid-erase id [] v = tt
  AllValid-erase id ((j, x) ∷ d) v = ground (arith, AllValid-erase id d v.1)

  pub AllValid-lookup :
      (id : Text) (e : Info) (d : Dict Info)
      → lookup id d ≡ some e
      → AllValid py d
      → is_valid_info py e ≡ true
  unfolding lookup
  AllValid-lookup id e [] h v = cc
  AllValid-lookup id e ((j, x) ∷ d) h v = ground (arith, AllValid-lookup id e d)

  pub AllValid-expire_stale :
      (now timeout : ℕ) (more : Dict Info) (d : Data)
      → AllValid py d.instances
      → AllValid py (expire_stale py now timeout more d).0.instances
  unfolding expire_stale expire_one
  AllValid-expire_stale now timeout [] d v = v
  AllValid-expire_stale now timeout ((id, e) ∷ more) d v = ground (
    arith,
    AllValid-expire_stale now timeout more d v,
    AllValid-expire_stale now timeout more (expire_one py now d id e)
        (AllValid-erase id d.instances v),
  )

  pub instance_info-valid :
      (now pid port : ℕ) (host path : Text) (meta : Metadata)
      → HostsArePlain py
      → text_in host allowed_hosts ≡ true
      → 1 ≤ port
      → port ≤ 65535
      → is_valid_info py (instance_info py now pid port host path meta) ≡ true
  unfolding is_valid_info instance_info
  instance_info-valid now pid port host path meta plain h lo hi =
      ground (arith, host-loopback py plain host h)

  pub register_in-AllValid :
      (now : ℕ) (d : Data) (pid port : ℕ) (path : Text) (meta : Metadata) {d' : Data} {id : Text}
      → HostsArePlain py
      → 1 ≤ port
      → port ≤ 65535
      → register_in py now d pid port path meta ≡ ok (d', id)
      → AllValid py d.instances
      → AllValid py d'.instances
  unfolding register_in add_instance
  register_in-AllValid now d pid port path meta {d'} {id} plain lo hi h v =
      let cand = generate_instance_id py.digest pid port path default_id_length in
      let host = or_default meta.host local_host in
      let info = instance_info py now pid port host path meta in
      elim (Option-cases (resolve_collision py.digest cand (keys d.instances) pid port path)) [
        | inl e ↦ absurd (ground arith)
        | inr (i, e) ↦ ground (
          arith,
          AllValid-insert i info d.instances,
          instance_info-valid now pid port host path meta plain,
        )
      ]

  pub unregister_in-AllValid :
      (d : Data) (id : Text) {d' : Data}
      → unregister_in d id ≡ some d'
      → AllValid py d.instances
      → AllValid py d'.instances
  unfolding unregister_in remove_instance
  unregister_in-AllValid d id h v = ground (arith, AllValid-erase id d.instances v)

  pub update_heartbeat_in-AllValid :
      (now : ℕ) (d : Data) (id : Text) {d' : Data}
      → update_heartbeat_in py now d id ≡ some d'
      → AllValid py d.instances
      → AllValid py d'.instances
  unfolding update_heartbeat_in is_valid_info
  update_heartbeat_in-AllValid now d id h v = elim (Option-cases (lookup id d.instances)) [
    | inl e ↦ absurd (ground arith)
    | inr (x, e) ↦
        let x' = record x { last_heartbeat = some (str (py.iso_timestamp now)) } in
        ground (arith, AllValid-insert id x' d.instances (AllValid-lookup id x d.instances e v) v)
  ]

  pub set_active_in-AllValid :
      (d : Data) (id : Text) {d' : Data}
      → set_active_in d id ≡ some d'
      → AllValid py d.instances
      → AllValid py d'.instances
  unfolding set_active_in
  set_active_in-AllValid d id h v = ground arith

  pub expire_instance_in-AllValid :
      (now : ℕ) (d : Data) (id reason : Text) (by : Option Text) {d' : Data}
      → expire_instance_in py now d id reason by ≡ some d'
      → AllValid py d.instances
      → AllValid py d'.instances
  unfolding expire_instance_in remove_instance
  expire_instance_in-AllValid now d id reason by h v = elim (Option-cases (lookup id d.instances)) [
    | inl e ↦ absurd (ground arith)
    | inr (x, e) ↦ ground (arith, AllValid-erase id d.instances v)
  ]
