-- ===== src/Output/Truncation.antt =====
-- No part of a result is lost when `custom_tools_call` of src/ida_multi_mcp/server.py truncates it.
use ida_multi_mcp.Prelude.{
  ℕ, ◌+◌, ◌≤◌, ◌<◌, ◌≡◌, ◌⊎◌, inl, inr, refl, ap, ◌∙◌, Bool, true, false, ◌&&◌, Option, some, ℤ,
  pos, clip, Text, Dict, length, take, text, ◌++◌, drop, ltb, arith, if-cases,
}
use ida_multi_mcp.Json.{Json, Items, item, Members, json_text}
use ida_multi_mcp.Cache.{ResponseCache, Chunk, Result, ok, store, get, chunk_at}
use ida_multi_mcp.Cache.Bounds.{IsValid, store-IsValid}
use ida_multi_mcp.Cache.Recency.{get-store, entry, store-ok}
use ida_multi_mcp.Cache.Paging.{chunk_at-all}
use ida_multi_mcp.Preview.{preview, digits}
use ida_multi_mcp.Preview.Shape.{keeps, keeps-preview}
use ida_multi_mcp.ToolSchemas.{coerce_structured, output_schema}
use ida_multi_mcp.Output.{
  ToolResult, Envelope, envelope, format_reply, limit_output, structured_of, append_items,
  content_or_text, analysis_note, text_item, truncation_notice, notice_head, known_instance,
  truncated,
}

-- The call that reads a text of the cache, up to what follows `offset=`.
abbrev pub read_call : Text → Text → Text
read_call id rest = text "get_cached_output(cache_id='" ++ (id ++ (text "', offset=" ++ rest))

notice-read_call :
    (max total : ℕ) (id : Text)
    → (before_id after_id : Text) × (truncation_notice max total id
        ≡ before_id ++ read_call id after_id)
unfolding truncation_notice
notice-read_call max total id = (notice_head max total id, digits 40 max ++ text ")", refl)

-- What a client finds who got `res` for the full value `s`: the value, with all of the content and
-- no new entry in the cache; or a preview of the same types, the start of its text with a notice that
-- names `id` and the call that reads the rest, and the full text of `s` under `id`.
abbrev Whole :
    ℕ → ResponseCache → ResponseCache → ℕ → Text → Json → Items → Items → ToolResult → Type 0
Whole max before cache now id s content note res =
    ((cache ≡ before) × (res.structured ≡ some s) × (res.content ≡ append_items content note))
    ⊎ ((shown : Json) × (before_id after_id : Text) × (res.structured ≡ some shown)
        × (keeps s shown ≡ true)
        × (res.content
            ≡ item (text_item (take max (json_text shown) ++ (before_id ++ read_call id after_id)))
                note)
        × ((later offset : ℕ)
            → later ≤ now + before.ttl_seconds
            → (ch : Chunk) × ((get cache later id (pos offset) (pos 0)).1 ≡ ok ch)
              × (ch.chunk ≡ drop offset (json_text s))))

module _ (cache : ResponseCache) (now : ℕ) (id name : Text) (instance_id : Option Text)
    (v : IsValid cache) (room : 0 < cache.max_entries) where
  -- The full text is in the cache until its time has passed, from any offset on.
  stored-readable :
      (full : Text) (later offset : ℕ)
      → later ≤ now + cache.ttl_seconds
      → (ch : Chunk) × ((get
            (store cache now id full name instance_id).0
            later
            id
            (pos offset)
            (pos 0)).1
          ≡ ok ch)
        × (ch.chunk ≡ drop offset full)
  stored-readable full later offset soon =
      let e = entry now full name instance_id in
      (
        chunk_at id e offset (pos 0),
        get-store cache now id full name instance_id v room later (pos offset) (pos 0)
            ∙ if-cases (λ r. r ≡ ok (chunk_at id e offset (pos 0)))
                (ltb (now + cache.ttl_seconds) later) (λ late. absurd (ground arith))
                (λ fresh. refl),
        chunk_at-all id e offset (pos 0) refl,
      )

-- The call returns such a result, as no error, and leaves the cache valid.
abbrev pub Answered :
    ℕ → ResponseCache → ℕ → Text → Json → Items → Items → ResponseCache × Result ToolResult → Type 0
Answered max before now id s content note (cache, r) =
    (res : ToolResult) × (r ≡ ok res)
    × (res.is_error ≡ false)
    × Whole max before cache now id s content note res
    × IsValid cache

limit_output-Answered :
    (cache : ResponseCache) (now : ℕ) (id name : Text) (instance_id : Option Text) (max_output : ℤ)
    (s : Json) (content note : Items)
    → IsValid cache
    → 0 < cache.max_entries
    → Answered
        (clip max_output)
        cache
        now
        id
        s
        content
        note
        (limit_output cache now id name instance_id max_output s content note)
unfolding limit_output
limit_output-Answered cache now id name instance_id max_output s content note v room =
    let full = json_text s in
    let who = some (known_instance instance_id) in
    let max = clip max_output in
    if-cases (Answered max cache now id s content note) (ltb 0 max && ltb max (length full))
      (λ long.
        let shown = preview s (pos max) in
        let notice = notice-read_call max (length full) id in
        (
          _,
          ap (truncated s max (length full) note) (store-ok cache now id full name who v room),
          refl,
          inr (
            shown,
            notice.0,
            notice.1,
            refl,
            (keeps-preview s (pos max)).0,
            ap (λ t. item (text_item (take max (json_text shown) ++ t)) note) notice.2,
            stored-readable cache now id name who v room full,
          ),
          store-IsValid cache now id full name who v,
        ))
      (λ short. (_, refl, refl, inl (refl, refl, refl), v))

-- If the cache is valid and has room for an entry, a result of a tool in IDA that is no error reaches
-- the client whole, whatever the limit: either with all of its content and its structured value and
-- nothing new in the cache; or with a preview that has the same types at every place and a text, which
-- is the preview's, cut at the limit, and then a notice with the call of `get_cached_output` for the id
-- under which the cache answers, from any offset and until its time has passed, with the rest of the
-- full text, if no call comes between. The warning on unfinished analysis, where it is due, follows
-- in both cases; and the cache stays valid.
pub format_reply-Answered :
    (loads : Text → Option Json) (tools : Dict Members) (cache : ResponseCache) (now : ℕ)
    (id name : Text) (instance_id : Option Text) (max_output : ℤ) (incomplete : Bool) (e : Envelope)
    → IsValid cache
    → 0 < cache.max_entries
    → e.is_error ≡ false
    → let s = coerce_structured (output_schema tools name) (structured_of loads e) in
      Answered
        (clip max_output)
        cache
        now
        id
        s
        (content_or_text e.content s)
        (analysis_note name incomplete)
        (format_reply loads tools cache now id name instance_id max_output incomplete (envelope e))
unfolding format_reply
format_reply-Answered loads tools cache now id name instance_id max_output incomplete e v room
      fine =
    let s = coerce_structured (output_schema tools name) (structured_of loads e) in
    let note = analysis_note name incomplete in
    rw fine (
      limit_output-Answered cache now id name instance_id max_output s (content_or_text e.content s)
        note v room)
