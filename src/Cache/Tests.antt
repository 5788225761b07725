-- ===== src/Cache/Tests.antt =====
-- Runs of src/ida_multi_mcp/cache.py on small inputs.
use ida_multi_mcp.Prelude.{
  ◌+◌, ◌-◌, ◌≤◌, ◌<◌, ◌≡◌, refl, false, [], ◌∷◌, ◌++◌, none, pos, clip, Text, text, text_eq, lookup,
  contains, insert, erase, length, take, drop, ltb, if◌then◌else◌, arith,
}
use ida_multi_mcp.Cache.{
  Entry, ResponseCache, not_found, ok, raise, init, expired_ids, erase_all, evict_expired,
  make_room, move_to_end, with_cache, store, chunk_at, get, exists, delete, clear, listed,
  list_entries, stats, stores, step, run,
}
use ida_multi_mcp.Cache.Evict.{live}
use ida_multi_mcp.Cache.Bounds.{IsValid, run-init-IsValid}
use ida_multi_mcp.Cache.Recency.{entry, store_lem, get-store}
use ida_multi_mcp.Cache.Retention.{AllSpare, get-run-store}
use ida_multi_mcp.Cache.Paging.{chunk_at_lem, read_all, read_all-drop}

program : Unit {0}
unfolding init expired_ids erase_all evict_expired make_room move_to_end store chunk_at get exists
    delete clear listed list_entries stats step run lookup insert erase text_eq live
program = tt

abbrev id1 : Text
id1 = text "id1"

abbrev id2 : Text
id2 = text "id2"

abbrev hello : Entry
hello = entry 5 (text "hello") (text "decompile") none

abbrev world : Entry
world = entry 7 (text "world") (text "disasm") none

-- Two entries, of at most two, with a time to live of 10.
abbrev full : ResponseCache
full = record { max_entries = 2; ttl_seconds = 10; cache = (id1, hello) ∷ (id2, world) ∷ [] }

full-IsValid : IsValid full
unfolding lookup text_eq
full-IsValid = record { distinct = (refl, (refl, tt)); bounded = omega arith }

stored_twice :
    run (init 2 10) (
      (5, stores id1 (text "hello") (text "decompile") none)
      ∷ (7, stores id2 (text "world") (text "disasm") none)
      ∷ [])
    ≡ full
unfolding program
stored_twice = refl

middle : (get full 8 id1 (pos 1) (pos 3)).1 ≡ ok (chunk_at id1 hello 1 (pos 3))
unfolding program
middle = refl

middle_chunk : (chunk_at id1 hello 1 (pos 3)).chunk ≡ text "ell"
unfolding program
middle_chunk = refl

run-init-IsValid_example :
    IsValid (run (init 1 10) ((3, stores id1 [] [] none) ∷ (4, stores id2 [] [] none) ∷ []))
run-init-IsValid_example =
    run-init-IsValid 1 10 ((3, stores id1 [] [] none) ∷ (4, stores id2 [] [] none) ∷ [])

new_id : contains (text "id3") full.cache ≡ false
unfolding program
new_id = refl

-- The third entry evicts the first.
store_lem_example :
    let d = live 10 9 full.cache in
    store full 9 (text "id3") (text "x") [] none ≡ (
      with_cache full (drop (length d + 1 - 2) d ++ (text "id3", entry 9 (text "x") [] none) ∷ []),
      ok (text "id3"),
    )
store_lem_example =
    store_lem full 9 (text "id3") (text "x") [] none full-IsValid (omega arith) new_id

get-store_example :
    (get (store full 9 (text "id3") (text "xyz") [] none).0 19 (text "id3") (pos 1) (pos 0)).1 ≡ (
      if ltb (9 + 10) 19
      then raise (not_found (text "id3"))
      else ok (chunk_at (text "id3") (entry 9 (text "xyz") [] none) 1 (pos 0)))
get-store_example =
    get-store full 9 (text "id3") (text "xyz") [] none full-IsValid (omega arith) 19 (pos 1) (pos 0)

one_call-AllSpare : AllSpare (text "id3") 19 ((12, stores id1 (text "new") [] none) ∷ [])
unfolding text_eq
one_call-AllSpare = (omega arith, refl, tt)

-- One call may come between in a cache of two entries.
get-run-store_example :
    (get
      (run
        (store full 9 (text "id3") (text "xyz") [] none).0
        ((12, stores id1 (text "new") [] none) ∷ []))
      19
      (text "id3")
      (pos 1)
      (pos 0)).1
    ≡ ok (chunk_at (text "id3") (entry 9 (text "xyz") [] none) 1 (pos 0))
get-run-store_example =
    get-run-store full 9 (text "id3") (text "xyz") [] none full-IsValid
      ((12, stores id1 (text "new") [] none) ∷ []) 19 (pos 1) (pos 0) (omega arith)
      one_call-AllSpare (omega arith)

chunk_at_lem_example :
    let c = chunk_at id1 hello 1 (pos 3) in
    (c.cache_id ≡ id1)
    × (c.tool_name ≡ hello.tool_name)
    × (c.instance_id ≡ hello.instance_id)
    × (c.offset ≡ 1)
    × (c.total_chars ≡ length hello.content)
    × (c.chunk ≡ take c.size (drop 1 hello.content))
    × (length c.chunk ≡ c.size)
    × (c.remaining_chars ≡ length (drop (1 + c.size) hello.content))
    × (0 < clip (pos 3) → c.size ≤ clip (pos 3))
chunk_at_lem_example = chunk_at_lem id1 hello 1 (pos 3)

read_all-drop_example : read_all id1 hello 5 0 2 ≡ drop 0 hello.content
read_all-drop_example = read_all-drop id1 hello 5 0 2 (omega arith) (omega arith)
