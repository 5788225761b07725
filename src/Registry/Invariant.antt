-- ===== src/Registry/Invariant.antt =====
-- What every change of src/ida_multi_mcp/registry.py keeps true of the data.
use ida_multi_mcp.Prelude.{
  ℕ, ◌≤◌, ◌≡◌, refl, sym, ap, ◌∙◌, inl, inr, true, false, [], ◌∷◌, Option, none, some, Text,
  text_eq, text_eq_iff, text_eq_refl, Dict, lookup, contains, insert, erase, keys, Distinct, length,
  or_default, if◌then◌else◌, Bool-cases, Option-cases, arith, text_in-keys, length-insert_known,
  lookup-insert, lookup-erase, insert-Distinct, erase-Distinct, length-erase-le, length-insert_new,
}
use ida_multi_mcp.InstanceId.{generate_instance_id, resolve_collision, default_id_length}
use ida_multi_mcp.InstanceId.Fresh.{resolve_collision-fresh}
use ida_multi_mcp.Registry.Schema.{Python, str, Info, Data, local_host, max_instances}
use ida_multi_mcp.Registry.Changes.{
  Metadata, ok, instance_info, add_instance, register_in, first_key, is_active, remove_instance,
  unregister_in, update_heartbeat_in, set_active_in, expired_info, expire_instance_in,
}

-- The active instance is a registered one, and there is one if there are instances.
abbrev pub Elected : Option Text → Dict Info → Type 0
Elected none d = d ≡ []
Elected (some a) d = contains a d ≡ true

pub record IsValid (d : Data) : Type 0 where
  pub ids : Distinct d.instances
  pub expired_ids : Distinct d.expired
  pub elected : Elected d.active_instance d.instances
  pub bounded : length d.instances ≤ max_instances

pub first_key-Elected : (d : Dict Info) → Elected (first_key d) d
unfolding lookup
first_key-Elected [] = refl
first_key-Elected ((k, e) ∷ d) = rw (text_eq_refl k)

contains-erase_ne :
    (id a : Text) (d : Dict Info)
    → text_eq a id ≡ false
    → contains a d ≡ true
    → contains a (erase id d) ≡ true
contains-erase_ne id a d ne h =
    ground (arith, lookup-erase id a d, text_eq_iff a id, text_eq_iff id a)

contains-insert :
    (id a : Text) (e : Info) (d : Dict Info)
    → contains a d ≡ true
    → contains a (insert id e d) ≡ true
contains-insert id a e d h = ground (arith, lookup-insert id a e d)

contains-insert_self : (id : Text) (e : Info) (d : Dict Info) → contains id (insert id e d) ≡ true
contains-insert_self id e d = ground (arith, lookup-insert id id e d, text_eq_refl id)

-- Where the removed instance was active, the first one that is left becomes active.
reelect :
    (id : Text) (a : Option Text) (d : Dict Info)
    → Elected a d
    → Elected (if is_active a id then first_key (erase id d) else a) (erase id d)
unfolding erase
reelect id none d h = ap (erase id) h
reelect id (some a) d h = elim (Bool-cases (text_eq a id)) [
  | inl e ↦ rw e (first_key-Elected (erase id d))
  | inr e ↦ rw e (contains-erase_ne id a d e h)
]

pub remove_instance-IsValid : (d : Data) (id : Text) → IsValid d → IsValid (remove_instance d id)
unfolding remove_instance
remove_instance-IsValid d id v = record {
  ids = erase-Distinct id d.instances v.ids;
  expired_ids = v.expired_ids;
  elected = reelect id d.active_instance d.instances v.elected;
  bounded = omega (arith, length-erase-le id d.instances, v.bounded);
}

add-Elected :
    (id : Text) (e : Info) (a : Option Text) (d : Dict Info)
    → Elected a d
    → Elected (some (or_default a id)) (insert id e d)
add-Elected id e none d h = contains-insert_self id e d
add-Elected id e (some a) d h = contains-insert id a e d h

pub register_in-IsValid :
    (py : Python) (now : ℕ) (d : Data) (pid port : ℕ) (path : Text) (meta : Metadata) {d' : Data}
    {id : Text}
    → register_in py now d pid port path meta ≡ ok (d', id)
    → IsValid d
    → IsValid d'
unfolding register_in add_instance
register_in-IsValid py now d pid port path meta {d'} {id} h v =
    let cand = generate_instance_id py.digest pid port path default_id_length in
    elim (Option-cases (resolve_collision py.digest cand (keys d.instances) pid port path)) [
      | inl e ↦ absurd (ground arith)
      | inr (i, e) ↦
          let host = or_default meta.host local_host in
          let info = instance_info py now pid port host path meta in
          let new : contains i d.instances ≡ false =
            sym (text_in-keys i d.instances)
            ∙ resolve_collision-fresh py.digest cand (keys d.instances) pid port path e in
          ground (
            arith,
            insert-Distinct i info d.instances v.ids,
            add-Elected i info d.active_instance d.instances v.elected,
            length-insert_new i info d.instances new,
          )
    ]

update-Elected :
    (id : Text) (e : Info) (a : Option Text) (d : Dict Info)
    → contains id d ≡ true
    → Elected a d
    → Elected a (insert id e d)
unfolding lookup
update-Elected id e none [] c h = cc
update-Elected id e none (x ∷ d) c h = cc
update-Elected id e (some a) d c h = contains-insert id a e d h

pub set_active_in-IsValid :
    (d : Data) (id : Text) {d' : Data} → set_active_in d id ≡ some d' → IsValid d → IsValid d'
unfolding set_active_in
set_active_in-IsValid d id h v = ground arith

pub unregister_in-IsValid :
    (d : Data) (id : Text) {d' : Data} → unregister_in d id ≡ some d' → IsValid d → IsValid d'
unfolding unregister_in
unregister_in-IsValid d id h v = ground (arith, remove_instance-IsValid d id v)

pub update_heartbeat_in-IsValid :
    (py : Python) (now : ℕ) (d : Data) (id : Text) {d' : Data}
    → update_heartbeat_in py now d id ≡ some d'
    → IsValid d
    → IsValid d'
unfolding update_heartbeat_in
update_heartbeat_in-IsValid py now d id h v = elim (Option-cases (lookup id d.instances)) [
  | inl e ↦ absurd (ground arith)
  | inr (x, e) ↦
      let x' = record x { last_heartbeat = some (str (py.iso_timestamp now)) } in
      ground (
        arith,
        insert-Distinct id x' d.instances v.ids,
        length-insert_known id x' d.instances (rw e),
        update-Elected id x' d.active_instance d.instances (rw e) v.elected,
      )
]

pub expire_instance_in-IsValid :
    (py : Python) (now : ℕ) (d : Data) (id reason : Text) (by : Option Text) {d' : Data}
    → expire_instance_in py now d id reason by ≡ some d'
    → IsValid d
    → IsValid d'
unfolding expire_instance_in
expire_instance_in-IsValid py now d id reason by h v = elim (Option-cases (lookup id d.instances)) [
  | inl e ↦ absurd (ground arith)
  | inr (x, e) ↦
      let x' = expired_info py now x reason by in
      let d1 : Data = record d { expired = insert id x' d.expired } in
      let v1 : IsValid d1 = record {
        ids = v.ids;
        expired_ids = insert-Distinct id x' d.expired v.expired_ids;
        elected = v.elected;
        bounded = v.bounded;
      } in
      ground (arith, remove_instance-IsValid d1 id v1)
]
