-- ===== src/Registry/Stale.antt =====
-- `cleanup_stale` of src/ida_multi_mcp/registry.py: which instances go, and what stays.
use ida_multi_mcp.Prelude.{
  ℕ, ◌≤◌, ◌≡◌, refl, ap, ◌∙◌, inl, inr, Bool, false, [], ◌∷◌, Option, none, some, Text, text,
  text_eq_iff, text_in, Dict, lookup, Distinct, length, or_default, if◌then◌else◌, Bool-cases,
  arith, lookup-erase, insert-Distinct, erase-Distinct, length-erase-le,
}
use ida_multi_mcp.Registry.Schema.{Python, str, Info, Data}
use ida_multi_mcp.Registry.Changes.{
  first_key, expired_info, is_old, expire_one, expire_stale, active_in, cleanup_stale_in,
}
use ida_multi_mcp.Registry.Invariant.{Elected, IsValid, first_key-Elected}

-- Whether an entry's heartbeat is too old.
abbrev pub is_stale : Python → ℕ → ℕ → Option Info → Bool
is_stale py now timeout none = false
is_stale py now timeout (some info) =
    is_old py now timeout (or_default info.last_heartbeat (str []))

module _ (py : Python) (now timeout : ℕ) where
  -- The ids that go are those whose heartbeat is too old.
  text_in-stale :
      (a : Text) (more : Dict Info) (d : Data)
      → Distinct more
      → text_in a (expire_stale py now timeout more d).1 ≡ is_stale py now timeout (lookup a more)
  unfolding expire_stale expire_one text_in lookup
  text_in-stale a [] d h = refl
  text_in-stale a ((id, info) ∷ more) d h = ground (
    arith,
    text_in-stale a more d h.1,
    text_in-stale a more (expire_one py now d id info) h.1,
    text_eq_iff id a,
  )

  -- The instances that are left.
  lookup-left :
      (a : Text) (more : Dict Info) (d : Data)
      → lookup a (expire_stale py now timeout more d).0.instances
        ≡ (if text_in a (expire_stale py now timeout more d).1 then none else lookup a d.instances)
  unfolding expire_stale expire_one text_in
  lookup-left a [] d = refl
  lookup-left a ((id, info) ∷ more) d = ground (
    arith,
    lookup-left a more d,
    lookup-left a more (expire_one py now d id info),
    lookup-erase id a d.instances,
    text_eq_iff id a,
  )

  active-left :
      (more : Dict Info) (d : Data)
      → (expire_stale py now timeout more d).0.active_instance ≡ d.active_instance
  unfolding expire_stale expire_one
  active-left [] d = refl
  active-left ((id, info) ∷ more) d =
      ground (arith, active-left more d, active-left more (expire_one py now d id info))

  Distinct-left :
      (more : Dict Info) (d : Data)
      → Distinct d.instances
      → Distinct d.expired
      → let d' = (expire_stale py now timeout more d).0 in
        Distinct d'.instances × Distinct d'.expired × (length d'.instances ≤ length d.instances)
  unfolding expire_stale expire_one
  Distinct-left [] d h k = ground arith
  Distinct-left ((id, info) ∷ more) d h k = ground (
    arith,
    Distinct-left more d h k,
    Distinct-left more (expire_one py now d id info),
    erase-Distinct id d.instances h,
    length-erase-le id d.instances,
    insert-Distinct id (expired_info py now info (text "stale_heartbeat") none) d.expired k,
  )

nil_of_length : (d : Dict Info) → length d ≤ 0 → d ≡ []
nil_of_length [] h = refl
nil_of_length (x ∷ d) h = absurd (omega arith)

module _ (py : Python) (now timeout : ℕ) (d : Data) (v : IsValid d) where
  left : Data
  left = (expire_stale py now timeout d.instances d).0

  -- The ids returned are those of the instances whose heartbeat is too old; these are no longer
  -- registered, and every other instance is as it was.
  pub cleanup_stale_in_lem :
      (a : Text)
      → let (d', stale) = cleanup_stale_in py now timeout d in
        (text_in a stale ≡ is_stale py now timeout (lookup a d.instances))
        × (lookup a d'.instances ≡ (
            if is_stale py now timeout (lookup a d.instances) then none else lookup a d.instances))
  unfolding cleanup_stale_in
  cleanup_stale_in_lem a =
      let went = text_in-stale py now timeout a d.instances d v.ids in
      (went, lookup-left py now timeout a d.instances d ∙ rw went refl)

  Elected-left :
      (a : Option Text)
      → Elected a d.instances
      → Elected
          (if active_in a (expire_stale py now timeout d.instances d).1
            then first_key left.instances
            else a)
          left.instances
  unfolding left
  Elected-left none h = nil_of_length left.instances (
      omega (
        arith,
        (Distinct-left py now timeout d.instances d v.ids v.expired_ids).2,
        ap (length {A = Text × Info}) h,
      ))
  Elected-left (some a) h =
      elim (Bool-cases (text_in a (expire_stale py now timeout d.instances d).1)) [
        | inl e ↦ rw e (first_key-Elected left.instances)
        | inr e ↦ rw e (ground (arith, lookup-left py now timeout a d.instances d))
      ]

  -- The sweep keeps the registry valid: it elects another active instance where the old one went.
  pub cleanup_stale_in-IsValid : IsValid (cleanup_stale_in py now timeout d).0
  unfolding cleanup_stale_in left
  cleanup_stale_in-IsValid =
      let kept = Distinct-left py now timeout d.instances d v.ids v.expired_ids in
      record {
        ids = kept.0;
        expired_ids = kept.1;
        elected =
            rw (active-left py now timeout d.instances d)
              (Elected-left d.active_instance v.elected);
        bounded = omega (arith, kept.2, v.bounded);
      }
