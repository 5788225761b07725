-- ===== src/Cache.antt =====
-- src/ida_multi_mcp/cache.py: the LRU cache, with a time to live, of large tool outputs.
-- The clock is read into a natural number (ticks; `ttl_seconds` in the same unit) and handed to
-- each method, as is the id that `uuid4` yields. A method is one step under the cache's lock: it
-- returns the new cache beside its result. Limits are natural numbers.
mod Evict
mod Behind
pub mod Bounds
mod Expiry
mod Retention
pub mod Recency
pub mod Paging
mod Tests
use ida_multi_mcp.Prelude.{
  ℕ, zero, suc, ◌+◌, ◌-◌, min, Bool, true, false, not, ◌&&◌, ◌||◌, List, [], ◌∷◌, ◌++◌, Option,
  none, some, ℤ, pos, negsuc, clip, Text, Dict, lookup, contains, insert, erase, keys, length, take,
  drop, keep_if, ltb, leb, if◌then◌else◌, is_some,
}

-- `class CacheEntry`
pub record Entry : Type 0 where
  pub content : Text
  pub created_at : ℕ
  pub tool_name : Text
  pub instance_id : Option Text

-- `class ResponseCache`, least recently used first
pub record ResponseCache : Type 0 where
  pub max_entries : ℕ
  pub ttl_seconds : ℕ
  pub cache : Dict Entry

pub data CacheError : Type 0 where
  -- "not found or expired", with the id
  not_found : Text → CacheError
  -- `popitem` on an empty `OrderedDict`
  empty_pop : CacheError

pub data Result {ℓ} (A : Type ℓ) : Type ℓ where
  ok : A → Result A
  raise : CacheError → Result A

unfoldable pub init : ℕ → ℕ → ResponseCache
init max_entries ttl_seconds = record {
  max_entries = max_entries;
  ttl_seconds = ttl_seconds;
  cache = [];
}

-- `now - entry.created_at > self.ttl_seconds`
abbrev pub is_expired : ℕ → ℕ → Entry → Bool
is_expired ttl now e = ltb (e.created_at + ttl) now

-- The comprehension of `_evict_expired`.
unfoldable pub expired_ids : ℕ → ℕ → Dict Entry → List Text
expired_ids ttl now [] = []
expired_ids ttl now ((k, e) ∷ d) =
    let rest = expired_ids ttl now d in if is_expired ttl now e then k ∷ rest else rest

-- `for cache_id in expired: del self._cache[cache_id]`
unfoldable pub erase_all {ℓ} : {V : Type ℓ} → List Text → Dict V → Dict V
erase_all [] d = d
erase_all (k ∷ ks) d = erase_all ks (erase k d)

unfoldable pub evict_expired : ResponseCache → ℕ → ResponseCache × ℕ
unfolding expired_ids erase_all
evict_expired c now =
    let expired = expired_ids c.ttl_seconds now c.cache in
    (record c { cache = erase_all expired c.cache }, length expired)

-- `while len(self._cache) >= self.max_entries: self._cache.popitem(last=False)`
unfoldable pub make_room : ℕ → Dict Entry → Result (Dict Entry)
make_room max_entries [] = if leb max_entries 0 then raise empty_pop else ok []
make_room max_entries (e ∷ d) =
    if leb max_entries (length (e ∷ d)) then make_room max_entries d else ok (e ∷ d)

-- `move_to_end(k)`
unfoldable pub move_to_end {ℓ} : {V : Type ℓ} → Text → Dict V → Dict V
move_to_end k d = elim (lookup k d) [ none ↦ d | some e ↦ erase k d ++ (k, e) ∷ [] ]

-- `with_entries c d` is the object after its dict became `d`.
abbrev pub with_cache : ResponseCache → Dict Entry → ResponseCache
with_cache c d = record c { cache = d }

abbrev pub store_in :
    ResponseCache → ℕ → Text → Entry → Result (Dict Entry) → ResponseCache × Result Text
store_in c now cache_id e (ok d) =
    (with_cache c (move_to_end cache_id (insert cache_id e d)), ok cache_id)
store_in c now cache_id e (raise x) = (with_cache c [], raise x)

unfoldable pub store :
    ResponseCache → ℕ → Text → Text → Text → Option Text → ResponseCache × Result Text
unfolding evict_expired make_room move_to_end
store c now cache_id content tool_name instance_id =
    let c' = (evict_expired c now).0 in
    store_in c' now cache_id
      (record {
        content = content;
        created_at = now;
        tool_name = tool_name;
        instance_id = instance_id;
      })
      (make_room c.max_entries c'.cache)

-- What `get` returns.
pub record Chunk : Type 0 where
  pub chunk : Text
  pub offset : ℕ
  pub size : ℕ
  pub total_chars : ℕ
  pub remaining_chars : ℕ
  pub cache_id : Text
  pub tool_name : Text
  pub instance_id : Option Text

-- The part of `get` after the lookup: `offset` is no longer negative.
unfoldable pub chunk_at : Text → Entry → ℕ → ℤ → Chunk
chunk_at cache_id e offset size =
    let total = length e.content in
    if leb total offset
    then record {
      chunk = [];
      offset = offset;
      size = 0;
      total_chars = total;
      remaining_chars = 0;
      cache_id = cache_id;
      tool_name = e.tool_name;
      instance_id = e.instance_id;
    }
    else let actual =
        (if leb (clip size) 0 then total - offset else min (clip size) (total - offset)) in
      record {
        chunk = take actual (drop offset e.content);
        offset = offset;
        size = actual;
        total_chars = total;
        remaining_chars = total - offset - actual;
        cache_id = cache_id;
        tool_name = e.tool_name;
        instance_id = e.instance_id;
      }

unfoldable pub get : ResponseCache → ℕ → Text → ℤ → ℤ → ResponseCache × Result Chunk
unfolding evict_expired move_to_end chunk_at
get c now cache_id offset size =
    let c' = (evict_expired c now).0 in
    elim (lookup cache_id c'.cache) [
      | none ↦ (c', raise (not_found cache_id))
      | some e ↦ (
        with_cache c' (move_to_end cache_id c'.cache),
        ok (chunk_at cache_id e (clip offset) size),
      )
    ]

unfoldable pub exists : ResponseCache → ℕ → Text → ResponseCache × Bool
unfolding evict_expired
exists c now cache_id = let c' = (evict_expired c now).0 in (c', contains cache_id c'.cache)

unfoldable pub delete : ResponseCache → Text → ResponseCache × Bool
delete c cache_id =
    if contains cache_id c.cache then (with_cache c (erase cache_id c.cache), true) else (c, false)

unfoldable pub clear : ResponseCache → ResponseCache × ℕ
clear c = (with_cache c [], length c.cache)

-- An element of `list_entries`; the age is in ticks, not rounded to seconds.
pub record Listed : Type 0 where
  pub cache_id : Text
  pub tool_name : Text
  pub instance_id : Option Text
  pub total_chars : ℕ
  pub age : ℕ

unfoldable pub listed : ℕ → Dict Entry → List Listed
listed now [] = []
listed now ((k, e) ∷ d) =
    record {
      cache_id = k;
      tool_name = e.tool_name;
      instance_id = e.instance_id;
      total_chars = length e.content;
      age = now - e.created_at;
    }
    ∷ listed now d

unfoldable pub list_entries : ResponseCache → ℕ → ResponseCache × List Listed
unfolding evict_expired listed
list_entries c now = let c' = (evict_expired c now).0 in (c', listed now c'.cache)

-- What `stats` returns.
pub record Stats : Type 0 where
  pub entry_count : ℕ
  pub max_entries : ℕ
  pub ttl_seconds : ℕ

unfoldable pub stats : ResponseCache → ℕ → ResponseCache × Stats
unfolding evict_expired
stats c now =
    let c' = (evict_expired c now).0 in
    (
      c',
      record {
        entry_count = length c'.cache;
        max_entries = c'.max_entries;
        ttl_seconds = c'.ttl_seconds;
      },
    )

-- The calls of the object's methods.
pub data Call : Type 0 where
  stores : Text → Text → Text → Option Text → Call
  gets : Text → ℤ → ℤ → Call
  asks : Text → Call
  deletes : Text → Call
  clears lists counts : Call

-- The object after a call at time `now`.
unfoldable pub step : ResponseCache → ℕ → Call → ResponseCache
step c now (stores id content tool inst) = (store c now id content tool inst).0
step c now (gets id offset size) = (get c now id offset size).0
step c now (asks id) = (exists c now id).0
step c now (deletes id) = (delete c id).0
step c now clears = (clear c).0
step c now lists = (list_entries c now).0
step c now counts = (stats c now).0

-- The object after a sequence of calls, each with the time at which it is made.
unfoldable pub run : ResponseCache → List (ℕ × Call) → ResponseCache
run c [] = c
run c ((now, call) ∷ calls) = run (step c now call) calls
