-- ===== src/Cache/Expiry.antt =====
-- What the methods of src/ida_multi_mcp/cache.py answer, in terms of what is stored and when.
use ida_multi_mcp.Prelude.{
  ℕ, ◌≡◌, ◌↔◌, ◌∙◌, inl, inr, true, Option, none, some, ℤ, clip, Text, lookup, if◌then◌else◌,
  Option-cases, arith,
}
use ida_multi_mcp.Cache.{
  Entry, ResponseCache, not_found, Result, ok, raise, is_expired, evict_expired, Chunk, chunk_at,
  get, exists,
}
use ida_multi_mcp.Cache.Evict.{fresh, lookup-live, lookup-move_to_end}
use ida_multi_mcp.Cache.Bounds.{IsValid, evict_expired_lem}

-- What `get` answers for what is stored under an id.
abbrev pub answer : ResponseCache → ℕ → Text → ℤ → ℤ → Option Entry → Result Chunk
answer c now id offset size none = raise (not_found id)
answer c now id offset size (some e) =
    if is_expired c.ttl_seconds now e
    then raise (not_found id)
    else ok (chunk_at id e (clip offset) size)

module _ (c : ResponseCache) (now : ℕ) (id : Text) (v : IsValid c) where
  lookup-evict :
      (j : Text)
      → lookup j (evict_expired c now).0.cache ≡ fresh c.ttl_seconds now (lookup j c.cache)
  lookup-evict j =
      rw (evict_expired_lem c now v.distinct) (lookup-live c.ttl_seconds now j c.cache v.distinct)

  -- `get` raises if the id is unknown or its entry has expired, and otherwise returns the chunk
  -- of the entry, a negative offset being read as 0.
  pub get-answer :
      (offset size : ℤ)
      → (get c now id offset size).1 ≡ answer c now id offset size (lookup id c.cache)
  unfolding get
  get-answer offset size = ground (arith, lookup-evict id)

  -- `exists` answers whether `get` would return.
  pub exists-get :
      (offset size : ℤ)
      → (exists c now id).1 ≡ true ↔ ((ch : Chunk) × ((get c now id offset size).1 ≡ ok ch))
  unfolding exists get
  exists-get offset size = elim (Option-cases (lookup id (evict_expired c now).0.cache)) [
    | inl e ↦ (λ h. ground arith, λ h. ground arith)
    | inr (x, e) ↦ (λ h. (chunk_at id x (clip offset) size, rw (e, get)), λ h. rw (e, exists))
  ]

  -- Neither call changes what is stored under any id, except that expired entries are gone.
  pub lookup-get :
      (offset size : ℤ) (j : Text)
      → lookup j (get c now id offset size).0.cache ≡ fresh c.ttl_seconds now (lookup j c.cache)
  unfolding get
  lookup-get offset size j = elim (Option-cases (lookup id (evict_expired c now).0.cache)) [
    | inl e ↦ rw (e, get) (lookup-evict j)
    | inr (x, e) ↦
        rw (e, get) (lookup-move_to_end j id (evict_expired c now).0.cache ∙ lookup-evict j)
  ]
