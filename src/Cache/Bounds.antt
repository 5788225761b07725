-- ===== src/Cache/Bounds.antt =====
-- The cache of src/ida_multi_mcp/cache.py never outgrows its limit, and never holds an id twice.
use ida_multi_mcp.Prelude.{
  ℕ, ◌≤◌, ◌<◌, ◌≡◌, refl, ap, inl, inr, List, [], ◌∷◌, Option, ℤ, Text, Dict, lookup, contains,
  insert, Distinct, length, Bool-cases, Option-cases, arith, insert-Distinct, erase-Distinct,
  length-insert-le, length-erase-le,
}
use ida_multi_mcp.Cache.{
  Entry, ResponseCache, Result, ok, raise, init, evict_expired, make_room, move_to_end, with_cache,
  store_in, store, get, exists, delete, clear, list_entries, stats, Call, stores, gets, asks,
  deletes, clears, lists, counts, step, run,
}
use ida_multi_mcp.Cache.Evict.{
  live, erase_all-live, live-Distinct, length-live-le, move_to_end-Distinct, length-move_to_end,
}

pub record IsValid (c : ResponseCache) : Type 0 where
  pub distinct : Distinct c.cache
  pub bounded : length c.cache ≤ c.max_entries

evict-live :
    (c : ResponseCache) (now : ℕ)
    → Distinct c.cache
    → (evict_expired c now).0.cache ≡ live c.ttl_seconds now c.cache
unfolding evict_expired
evict-live c now h = erase_all-live c.ttl_seconds now c.cache h

pub evict_expired_lem :
    (c : ResponseCache) (now : ℕ)
    → Distinct c.cache
    → (evict_expired c now).0 ≡ with_cache c (live c.ttl_seconds now c.cache)
unfolding evict_expired
evict_expired_lem c now h = ap (with_cache c) (erase_all-live c.ttl_seconds now c.cache h)

live-IsValid :
    (c : ResponseCache) (now : ℕ)
    → IsValid c
    → IsValid (with_cache c (live c.ttl_seconds now c.cache))
live-IsValid c now v = record {
  distinct = live-Distinct c.ttl_seconds now c.cache v.distinct;
  bounded = omega (arith, length-live-le c.ttl_seconds now c.cache, v.bounded);
}

pub evict-IsValid : (c : ResponseCache) (now : ℕ) → IsValid c → IsValid (evict_expired c now).0
evict-IsValid c now v = rw (evict_expired_lem c now v.distinct) (live-IsValid c now v)

-- What `store` leaves room for.
make_room-fits :
    (n : ℕ) (d d' : Dict Entry) → Distinct d → make_room n d ≡ ok d' → Distinct d' × (length d' < n)
unfolding make_room
make_room-fits n [] d' h e = ground arith
make_room-fits n (x ∷ d) d' h e = ground (arith, make_room-fits n d d')

with_store-IsValid :
    (c : ResponseCache) (id : Text) (e : Entry) (d : Dict Entry)
    → Distinct d
    → length d < c.max_entries
    → IsValid (with_cache c (move_to_end id (insert id e d)))
with_store-IsValid c id e d h fits =
    let d' = insert id e d in
    let h' = insert-Distinct id e d h in
    record {
      distinct = move_to_end-Distinct id d' h';
      bounded = omega (arith, length-move_to_end id d' h', length-insert-le id e d);
    }

pub get-IsValid :
    (c : ResponseCache) (now : ℕ) (id : Text) (offset size : ℤ)
    → IsValid c
    → IsValid (get c now id offset size).0
unfolding get
get-IsValid c now id offset size v =
    let c' = (evict_expired c now).0 in
    let v' = evict-IsValid c now v in
    elim (Option-cases (lookup id c'.cache)) [
      | inl e ↦ rw (e, get) v'
      | inr (x, e) ↦
          rw (e, get)
            (record {
              distinct = move_to_end-Distinct id c'.cache v'.distinct;
              bounded = omega (arith, length-move_to_end id c'.cache v'.distinct, v'.bounded);
            })
    ]

store_in-IsValid :
    (c : ResponseCache) (now : ℕ) (id : Text) (e : Entry) (r : Result (Dict Entry))
    → Distinct c.cache
    → make_room c.max_entries c.cache ≡ r
    → IsValid (store_in c now id e r).0
store_in-IsValid c now id e (ok d) h m =
    let fits = make_room-fits c.max_entries c.cache d h m in
    with_store-IsValid c id e d fits.0 fits.1
store_in-IsValid c now id e (raise x) h m = record { distinct = tt; bounded = omega arith }

pub store-IsValid :
    (c : ResponseCache) (now : ℕ) (id content tool : Text) (inst : Option Text)
    → IsValid c
    → IsValid (store c now id content tool inst).0
unfolding store
store-IsValid c now id content tool inst v =
    store_in-IsValid (evict_expired c now).0 now id _ _ (evict-IsValid c now v).distinct refl

delete-IsValid : (c : ResponseCache) (id : Text) → IsValid c → IsValid (delete c id).0
unfolding delete
delete-IsValid c id v = elim (Bool-cases (contains id c.cache)) [
  | inl e ↦
      rw (e, delete)
        (record {
          distinct = erase-Distinct id c.cache v.distinct;
          bounded = omega (arith, length-erase-le id c.cache, v.bounded);
        })
  | inr e ↦ rw (e, delete) v
]

-- Every call, whether it returns or raises, keeps each id at most once and the number of entries
-- within the limit.
pub step-IsValid :
    (c : ResponseCache) (now : ℕ) (call : Call) → IsValid c → IsValid (step c now call)
unfolding step exists clear list_entries stats
step-IsValid c now (stores id content tool inst) v = store-IsValid c now id content tool inst v
step-IsValid c now (gets id offset size) v = get-IsValid c now id offset size v
step-IsValid c now (asks id) v = evict-IsValid c now v
step-IsValid c now (deletes id) v = delete-IsValid c id v
step-IsValid c now clears v = record { distinct = tt; bounded = omega arith }
step-IsValid c now lists v = evict-IsValid c now v
step-IsValid c now counts v = evict-IsValid c now v

pub run-IsValid : (c : ResponseCache) (calls : List (ℕ × Call)) → IsValid c → IsValid (run c calls)
unfolding run
run-IsValid c [] v = v
run-IsValid c ((now, call) ∷ calls) v =
    run-IsValid (step c now call) calls (step-IsValid c now call v)

-- After any calls to a new cache, at any times, no id stands twice and at most `max_entries`
-- entries are held.
pub run-init-IsValid :
    (max_entries ttl : ℕ) (calls : List (ℕ × Call)) → IsValid (run (init max_entries ttl) calls)
unfolding init
run-init-IsValid n ttl calls = run-IsValid _ calls (record { distinct = tt; bounded = omega arith })
