-- ===== src/Cache/Paging.antt =====
-- Reading a stored text in chunks, as the clients of src/ida_multi_mcp/cache.py do.
use mathlib.Core.List.{append-nil}
use ida_multi_mcp.Prelude.{
  ℕ, zero, suc, ◌+◌, ◌-◌, ◌≤◌, ◌<◌, min, ◌≡◌, ◌≢◌, ◌==◌, refl, sym, [], ◌∷◌, ◌++◌, ℤ, pos, clip,
  Text, length, take, drop, if◌then◌else◌, arith, length-take, length-drop, take-append-drop,
  drop-drop, take_of_length-le, drop_of_length-le,
}
use ida_multi_mcp.Cache.{Entry, chunk_at}

nil_of_length : (xs : Text) → length xs ≡ 0 → xs ≡ []
nil_of_length [] h = refl
nil_of_length (x ∷ xs) h = absurd (omega arith)

module _ (id : Text) (e : Entry) where
  -- A chunk names its entry, the offset asked for and the length of the whole text; it is the part of
  -- the text from this offset on that is as long as it says, no longer than a positive size asked
  -- for, and what remains is as long as the text behind it.
  pub chunk_at_lem :
      (offset : ℕ) (size : ℤ)
      → let c = chunk_at id e offset size in
        (c.cache_id ≡ id)
        × (c.tool_name ≡ e.tool_name)
        × (c.instance_id ≡ e.instance_id)
        × (c.offset ≡ offset)
        × (c.total_chars ≡ length e.content)
        × (c.chunk ≡ take c.size (drop offset e.content))
        × (length c.chunk ≡ c.size)
        × (c.remaining_chars ≡ length (drop (offset + c.size) e.content))
        × (0 < clip size → c.size ≤ clip size)
  unfolding chunk_at
  chunk_at_lem offset size =
      let rest = length e.content - offset in
      ground (
        arith,
        drop_of_length-le offset e.content,
        length-drop offset e.content,
        length-drop (offset + 0) e.content,
        length-drop (offset + rest) e.content,
        length-drop (offset + min (clip size) rest) e.content,
        length-take rest (drop offset e.content),
        length-take (min (clip size) rest) (drop offset e.content),
      )

  -- As long as something remains, a positive size makes progress.
  chunk_at-progress :
      (offset : ℕ) (size : ℤ)
      → 0 < clip size
      → (chunk_at id e offset size).remaining_chars ≢ 0
      → 0 < (chunk_at id e offset size).size
  unfolding chunk_at
  chunk_at-progress offset size h r = ground arith

  -- A size that is not positive asks for all that remains.
  pub chunk_at-all :
      (offset : ℕ) (size : ℤ)
      → clip size ≡ 0
      → (chunk_at id e offset size).chunk ≡ drop offset e.content
  unfolding chunk_at
  chunk_at-all offset size h =
      let rest = length e.content - offset in
      ground (
        arith,
        drop_of_length-le offset e.content,
        length-drop offset e.content,
        take_of_length-le rest (drop offset e.content),
      )

  -- The client's loop: chunk after chunk, each from where the last one ended, until none remains.
  pub read_all : ℕ → ℕ → ℕ → Text
  read_all zero offset size = []
  read_all (suc fuel) offset size =
      let c = chunk_at id e offset (pos size) in
      let rest = read_all fuel (offset + c.size) size in
      if c.remaining_chars == 0 then c.chunk else c.chunk ++ rest

  -- With a positive size, the chunks read from an offset on put together are the text behind the
  -- offset, and a round for each of its characters is enough.
  pub read_all-drop :
      (fuel offset size : ℕ)
      → 0 < size
      → length e.content ≤ fuel + offset
      → read_all fuel offset size ≡ drop offset e.content
  unfolding read_all
  read_all-drop zero offset size h enough = sym (drop_of_length-le offset e.content (omega arith))
  read_all-drop (suc fuel) offset size h enough =
      let c = chunk_at id e offset (pos size) in
      let joined = take-append-drop c.size (drop offset e.content) in
      let behind = drop-drop c.size offset e.content in
      ground (
        arith,
        chunk_at_lem offset (pos size),
        chunk_at-progress offset (pos size) h,
        nil_of_length (drop (offset + c.size) e.content),
        read_all-drop fuel (offset + c.size) size h,
        joined,
        behind,
        append-nil c.chunk,
      )
