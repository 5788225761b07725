-- ===== src/Cache/Retention.antt =====
-- Sequences of calls to the cache of src/ida_multi_mcp/cache.py, and how near to eviction they bring
-- an entry.
use mathlib.Core.Path.{subst}
use ida_multi_mcp.Prelude.{
  ℕ, suc, ◌+◌, ◌-◌, ◌≤◌, ◌<◌, ◌≡◌, refl, ap, ◌∙◌, inl, inr, Bool, true, false, not, List, [], ◌∷◌,
  Option, some, ℤ, clip, Text, text_eq, text_eq_iff, text_eq_refl, lookup, contains, insert, length,
  drop, Option-cases, Bool-cases, arith, lookup-insert, lookup-erase, erase-Distinct, sym,
  length-erase-le,
}
use ida_multi_mcp.Cache.{
  Entry, ResponseCache, ok, evict_expired, move_to_end, with_cache, store, chunk_at, get, exists,
  delete, list_entries, stats, Call, stores, gets, asks, deletes, clears, lists, counts, step, run,
}
use ida_multi_mcp.Cache.Evict.{fresh, lookup-live, lookup-move_to_end}
use ida_multi_mcp.Cache.Bounds.{
  IsValid, evict_expired_lem, evict-IsValid, store-IsValid, get-IsValid,
}
use ida_multi_mcp.Cache.Recency.{entry, alive, stored, lookup_after_insert}
use ida_multi_mcp.Cache.Expiry.{get-answer}
use ida_multi_mcp.Cache.Behind.{
  behind, behind-lt, behind-drop, behind-erase, behind-live, behind_other, behind_put, behind_self,
  lookup_other,
}

-- A call that neither stores nor deletes the id, and does not clear the cache.
abbrev pub spares : Text → Call → Bool
spares id (stores j content tool inst) = not (text_eq j id)
spares id (gets j offset size) = true
spares id (asks j) = true
spares id (deletes j) = not (text_eq j id)
spares id clears = false
spares id lists = true
spares id counts = true

-- Each call spares the id, and is made no later than `until`.
abbrev pub AllSpare : Text → ℕ → List (ℕ × Call) → Type 0
AllSpare id until [] = Unit {0}
AllSpare id until ((now, call) ∷ calls) =
    (now ≤ until) × (spares id call ≡ true) × AllSpare id until calls

module _ (id : Text) (e : Entry) (limit ttl : ℕ) where
  -- The entry is held with at most `k` entries behind it.
  record Kept (k : ℕ) (c : ResponseCache) : Type 0 where
    valid : IsValid c
    same_limit : c.max_entries ≡ limit
    same_ttl : c.ttl_seconds ≡ ttl
    there : lookup id c.cache ≡ some e
    near : behind id c.cache ≤ k

  evict-Kept :
      (c : ResponseCache) (now k : ℕ)
      → now ≤ e.created_at + ttl
      → Kept k c
      → Kept k (evict_expired c now).0
  evict-Kept c now k young h =
      let v = evict-IsValid c now h.valid in
      let q = evict_expired_lem c now h.valid.distinct in
      let l = lookup-live c.ttl_seconds now id c.cache h.valid.distinct in
      record {
        valid = v;
        same_limit = rw q h.same_limit;
        same_ttl = rw q h.same_ttl;
        there = rw q (l ∙ ap (fresh c.ttl_seconds now) h.there ∙ ground arith);
        near = rw q (omega (arith, behind-live c.ttl_seconds now id c.cache, h.near));
      }

  weaker : (c : ResponseCache) (k : ℕ) → Kept k c → Kept (suc k) c
  weaker c k h = record {
    valid = h.valid;
    same_limit = h.same_limit;
    same_ttl = h.same_ttl;
    there = h.there;
    near = omega (arith, h.near);
  }

  at_limit : (c : ResponseCache) (k : ℕ) → k ≤ limit → Kept k c → Kept limit c
  at_limit c k le h = record {
    valid = h.valid;
    same_limit = h.same_limit;
    same_ttl = h.same_ttl;
    there = h.there;
    near = omega (arith, h.near, le);
  }

  -- The entry after another was used, or itself.
  touch-Kept :
      (c : ResponseCache) (k : ℕ) (j : Text) (x : Entry)
      → lookup j c.cache ≡ some x
      → IsValid (with_cache c (move_to_end j c.cache))
      → Kept k c
      → Kept (suc k) (with_cache c (move_to_end j c.cache))
  touch-Kept c k j x hit v h = record {
    valid = v;
    same_limit = h.same_limit;
    same_ttl = h.same_ttl;
    there = lookup-move_to_end id j c.cache ∙ h.there;
    near = elim (Bool-cases (text_eq j id)) [
      | inl same ↦
          let q : behind id (move_to_end id c.cache) ≡ 0 = behind_self id e c.cache h.there in
          let p : j ≡ id = ground (arith, text_eq_iff j id) in rw (p, q) (omega arith)
      | inr other ↦ omega (arith, behind_other id j x c.cache other hit, h.near)
    ];
  }

  store-Kept :
      (c : ResponseCache) (now k : ℕ) (j content tool : Text) (inst : Option Text)
      → now ≤ e.created_at + ttl
      → k + 2 ≤ limit
      → text_eq j id ≡ false
      → Kept k c
      → Kept (suc k) (store c now j content tool inst).0
  store-Kept c now k j content tool inst young room other h =
      let a = evict-Kept c now k young h in
      let d = alive c now id content tool inst h.valid in
      let q : (evict_expired c now).0.cache ≡ d =
        ap (λ (c' : ResponseCache). c'.cache) (evict_expired_lem c now h.valid.distinct) in
      let there' : lookup id d ≡ some e = rw (sym q) a.there in
      let near' : behind id d ≤ k = rw (sym q) a.near in
      let n = length d + 1 - c.max_entries in
      let kept =
        behind-drop n id d (omega (arith, behind-lt id e d there', near', room, h.same_limit)) in
      let x = entry now content tool inst in
      let st = stored c now j content tool inst h.valid (omega (arith, room, h.same_limit)) in
      record {
        valid = store-IsValid c now j content tool inst h.valid;
        same_limit = rw st h.same_limit;
        same_ttl = rw st h.same_ttl;
        there = rw st (lookup_other id j x (drop n d) other ∙ kept.0 ∙ there');
        near = rw st (omega (arith, behind_put id j x (drop n d) other, kept.1, near'));
      }

  get-Kept :
      (c : ResponseCache) (now k : ℕ) (j : Text) (offset size : ℤ)
      → now ≤ e.created_at + ttl
      → Kept k c
      → Kept (suc k) (get c now j offset size).0
  unfolding get
  get-Kept c now k j offset size young h =
      let a = evict-Kept c now k young h in
      let c' = (evict_expired c now).0 in
      let v = get-IsValid c now j offset size h.valid in
      elim (Option-cases (lookup j c'.cache)) [
        | inl q ↦ rw (q, get) (weaker c' k a)
        | inr (x, q) ↦ rw (q, get) (touch-Kept c' k j x q (subst IsValid (rw (q, get) refl) v) a)
      ]

  delete-Kept :
      (c : ResponseCache) (k : ℕ) (j : Text)
      → text_eq j id ≡ false
      → Kept k c
      → Kept (suc k) (delete c j).0
  unfolding delete
  delete-Kept c k j other h = elim (Bool-cases (contains j c.cache)) [
    | inl q ↦
        rw (q, delete)
          (record {
            valid = record {
              distinct = erase-Distinct j c.cache h.valid.distinct;
              bounded = omega (arith, length-erase-le j c.cache, h.valid.bounded);
            };
            same_limit = h.same_limit;
            same_ttl = h.same_ttl;
            there = lookup-erase j id c.cache ∙ rw other h.there;
            near = omega (arith, behind-erase j id c.cache, h.near);
          })
    | inr q ↦ rw (q, delete) (weaker c k h)
  ]

  step-Kept :
      (c : ResponseCache) (now k : ℕ) (call : Call)
      → now ≤ e.created_at + ttl
      → k + 2 ≤ limit
      → spares id call ≡ true
      → Kept k c
      → Kept (suc k) (step c now call)
  unfolding step exists list_entries stats
  step-Kept c now k (stores j content tool inst) young room s h =
      store-Kept c now k j content tool inst young room (ground arith) h
  step-Kept c now k (gets j offset size) young room s h = get-Kept c now k j offset size young h
  step-Kept c now k (asks j) young room s h = weaker _ k (evict-Kept c now k young h)
  step-Kept c now k (deletes j) young room s h = delete-Kept c k j (ground arith) h
  step-Kept c now k clears young room s h = absurd (ground arith)
  step-Kept c now k lists young room s h = weaker _ k (evict-Kept c now k young h)
  step-Kept c now k counts young room s h = weaker _ k (evict-Kept c now k young h)

  run-Kept :
      (c : ResponseCache) (k : ℕ) (calls : List (ℕ × Call))
      → k + length calls < limit
      → AllSpare id (e.created_at + ttl) calls
      → Kept k c
      → Kept limit (run c calls)
  unfolding run
  run-Kept c k [] room s h = at_limit c k (omega (arith, room)) h
  run-Kept c k ((now, call) ∷ calls) room s h =
      run-Kept (step c now call) (suc k) calls (omega (arith, room)) s.2
        (step-Kept c now k call s.0 (omega (arith, room)) s.1 h)

module _ (c : ResponseCache) (now : ℕ) (id content tool : Text) (inst : Option Text)
    (v : IsValid c) where
  own-Kept :
      0 < c.max_entries
      → Kept id
          (entry now content tool inst)
          c.max_entries
          c.ttl_seconds
          0
          (store c now id content tool inst).0
  own-Kept room =
      let e = entry now content tool inst in
      let d = alive c now id content tool inst v in
      let d' = drop (length d + 1 - c.max_entries) d in
      let st = stored c now id content tool inst v room in
      let hit : lookup id (insert id e d') ≡ some e =
        lookup-insert id id e d' ∙ rw (text_eq_refl id) refl in
      record {
        valid = store-IsValid c now id content tool inst v;
        same_limit = rw st refl;
        same_ttl = rw st refl;
        there = rw st (lookup_after_insert id e d');
        near = rw st (omega (arith, behind_self id e (insert id e d') hit));
      }

  -- In a valid cache, what was stored is returned, as the chunk asked for, by a `get` within its time
  -- to live, if since the `store` fewer calls were made than the limit on entries, none of which
  -- stored or deleted its id, cleared the cache or came after that time.
  pub get-run-store :
      (calls : List (ℕ × Call)) (later : ℕ) (offset size : ℤ)
      → length calls < c.max_entries
      → AllSpare id (now + c.ttl_seconds) calls
      → later ≤ now + c.ttl_seconds
      → (get (run (store c now id content tool inst).0 calls) later id offset size).1
        ≡ ok (chunk_at id (entry now content tool inst) (clip offset) size)
  get-run-store calls later offset size room spare young =
      let e = entry now content tool inst in
      let c' = run (store c now id content tool inst).0 calls in
      let k =
        run-Kept id e c.max_entries c.ttl_seconds (store c now id content tool inst).0 0 calls
          (omega (arith, room)) spare (own-Kept (omega (arith, room))) in
      get-answer c' later id k.valid offset size ∙ rw k.there (rw k.same_ttl (ground arith))
