-- ===== src/Cache/Recency.antt =====
-- What `store` of src/ida_multi_mcp/cache.py keeps and what it evicts.
use ida_multi_mcp.Prelude.{
  ℕ, ◌+◌, ◌-◌, ◌<◌, ◌≡◌, refl, ap, ◌∙◌, false, [], ◌∷◌, ◌++◌, Option, some, ℤ, clip, Text,
  text_eq_refl, Dict, lookup, contains, insert, length, drop, ltb, if◌then◌else◌, arith,
  lookup-insert, insert_new, lookup-append_last, erase-append_last, contains-drop,
}
use ida_multi_mcp.Cache.{
  Entry, ResponseCache, not_found, empty_pop, ok, raise, expired_ids, erase_all, evict_expired,
  make_room, move_to_end, with_cache, store_in, store, chunk_at, get,
}
use ida_multi_mcp.Cache.Evict.{
  live, lookup-live, make_room-drop, move_to_end-hit, lookup-move_to_end,
}
use ida_multi_mcp.Cache.Bounds.{IsValid, evict_expired_lem, store-IsValid}
use ida_multi_mcp.Cache.Expiry.{get-answer}

-- The entry that `store` makes.
abbrev pub entry : ℕ → Text → Text → Option Text → Entry
entry now content tool_name instance_id = record {
  content = content;
  created_at = now;
  tool_name = tool_name;
  instance_id = instance_id;
}

pub lookup_after_insert :
    (id : Text) (e : Entry) (d : Dict Entry) → lookup id (move_to_end id (insert id e d)) ≡ some e
lookup_after_insert id e d =
    lookup-move_to_end id id (insert id e d) ∙ lookup-insert id id e d ∙ rw (text_eq_refl id)

module _ (c : ResponseCache) (now : ℕ) (id content tool_name : Text) (instance_id : Option Text)
    (v : IsValid c) where
  abbrev pub alive : Dict Entry
  alive = live c.ttl_seconds now c.cache

  -- With room for an entry, `store` returns the id, and the dict is the live entries less the
  -- oldest ones that do not fit, with the new entry at the end.
  pub stored :
      0 < c.max_entries
      → store c now id content tool_name instance_id ≡ (
        with_cache c (
            move_to_end id (
              insert id
                (entry now content tool_name instance_id)
                (drop (length alive + 1 - c.max_entries) alive))),
        ok id,
      )
  unfolding store
  stored room =
      let e = entry now content tool_name instance_id in
      ap (λ (c' : ResponseCache). store_in c' now id e (make_room c.max_entries c'.cache))
        (evict_expired_lem c now v.distinct)
      ∙ ap (store_in (with_cache c alive) now id e) (make_room-drop c.max_entries alive room)

  pub store-ok : 0 < c.max_entries → (store c now id content tool_name instance_id).1 ≡ ok id
  store-ok room = rw (stored room) refl

  -- Under a new id and a positive limit, `store` returns the id and evicts, besides what has
  -- expired, exactly the least recently used entries that leave no room; the rest keep their order
  -- and the new entry comes last.
  pub store_lem :
      0 < c.max_entries
      → contains id c.cache ≡ false
      → let d = live c.ttl_seconds now c.cache in
        store c now id content tool_name instance_id ≡ (
          with_cache c (
              drop (length d + 1 - c.max_entries) d
              ++ (id, entry now content tool_name instance_id) ∷ []),
          ok id,
        )
  store_lem room new =
      let kept = drop (length alive + 1 - c.max_entries) alive in
      let e = entry now content tool_name instance_id in
      let absent : contains id kept ≡ false =
        contains-drop (length alive + 1 - c.max_entries) id alive
          (ground (arith, lookup-live c.ttl_seconds now id c.cache v.distinct)) in
      stored room
      ∙ ap (λ (d : Dict Entry). (with_cache c d, ok id))
          (ap (move_to_end id) (insert_new id e kept absent)
            ∙ move_to_end-hit id e (kept ++ (id, e) ∷ [])
                (lookup-append_last id id e kept absent ∙ rw (text_eq_refl id))
            ∙ ap (λ (d : Dict Entry). d ++ (id, e) ∷ []) (erase-append_last id e kept absent))

  -- In a valid cache with a positive limit, a `get` that directly follows the `store` returns the
  -- chunk asked for of what was stored, until the time to live has passed, and raises after it.
  pub get-store :
      0 < c.max_entries
      → (later : ℕ) (offset size : ℤ)
      → (get (store c now id content tool_name instance_id).0 later id offset size).1 ≡ (
          if ltb (now + c.ttl_seconds) later
          then raise (not_found id)
          else ok (chunk_at id (entry now content tool_name instance_id) (clip offset) size))
  get-store room later offset size =
      let e = entry now content tool_name instance_id in
      let c' = (store c now id content tool_name instance_id).0 in
      let d = insert id e (drop (length alive + 1 - c.max_entries) alive) in
      get-answer c' later id (store-IsValid c now id content tool_name instance_id v) offset size
      ∙ rw (stored room, lookup_after_insert id e (drop (length alive + 1 - c.max_entries) alive))
          refl

make_room-zero : (d : Dict Entry) → make_room 0 d ≡ raise empty_pop
unfolding make_room
make_room-zero [] = refl
make_room-zero (e ∷ d) = ground (arith, make_room-zero d)

-- With a limit of zero every `store` empties the cache and raises.
pub store-zero :
    (c : ResponseCache) (now : ℕ) (id content tool_name : Text) (instance_id : Option Text)
    → c.max_entries ≡ 0
    → ((store c now id content tool_name instance_id).1 ≡ raise empty_pop)
      × ((store c now id content tool_name instance_id).0.cache ≡ [])
unfolding store evict_expired
store-zero c now id content tool_name instance_id h =
    ground (arith, make_room-zero (erase_all (expired_ids c.ttl_seconds now c.cache) c.cache))
