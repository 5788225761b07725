-- ===== src/Cache/Evict.antt =====
-- The helpers of src/ida_multi_mcp/cache.py as functions on the list of entries: expiry is a filter,
-- making room drops a prefix, and moving to the end keeps what can be read.
use ida_multi_mcp.Prelude.{
  ℕ, suc, ◌+◌, ◌-◌, ◌≤◌, ◌<◌, ◌≡◌, refl, inl, inr, false, not, List, [], ◌∷◌, ◌++◌, Option, none,
  some, Text, text_eq_iff, text_eq_refl, text_in, Dict, lookup, contains, erase, Distinct, length,
  drop, keep_if, leb, if◌then◌else◌, Bool-cases, Option-cases, arith, lookup-erase, erase-Distinct,
  length-erase, contains-erase_self, erase_absent, lookup-append_last, append_last-Distinct,
  lookup-keep_if, keep_if-Distinct, length-keep_if-le, length-append, drop-nil, leb→le,
}
use ida_multi_mcp.Cache.{Entry, ok, is_expired, expired_ids, erase_all, make_room, move_to_end}

-- The entries that are within their time to live.
unfoldable pub live : ℕ → ℕ → Dict Entry → Dict Entry
live ttl now = keep_if (λ ke. not (is_expired ttl now ke.1))

erase_all-cons :
    (ks : List Text) (k : Text) (e : Entry) (d : Dict Entry)
    → text_in k ks ≡ false
    → erase_all ks ((k, e) ∷ d) ≡ (k, e) ∷ erase_all ks d
unfolding erase_all text_in erase
erase_all-cons [] k e d h = refl
erase_all-cons (x ∷ ks) k e d h =
    ground (arith, erase_all-cons ks k e (erase x d), text_eq_iff x k, text_eq_iff k x)

not-in-expired_ids :
    (ttl now : ℕ) (k : Text) (d : Dict Entry)
    → contains k d ≡ false
    → text_in k (expired_ids ttl now d) ≡ false
unfolding expired_ids text_in lookup
not-in-expired_ids ttl now k [] h = refl
not-in-expired_ids ttl now k ((j, e) ∷ d) h = ground (arith, not-in-expired_ids ttl now k d)

-- Where every key stands once, deleting the expired ids leaves the live entries, in their order.
pub erase_all-live :
    (ttl now : ℕ) (d : Dict Entry)
    → Distinct d
    → erase_all (expired_ids ttl now d) d ≡ live ttl now d
unfolding live expired_ids erase_all erase
erase_all-live ttl now [] h = refl
erase_all-live ttl now ((k, e) ∷ d) h = ground (
  arith,
  erase_all-live ttl now d,
  erase_all-cons (expired_ids ttl now d) k e d,
  not-in-expired_ids ttl now k d,
  erase_absent k d,
  text_eq_refl k,
)

pub live-Distinct : (ttl now : ℕ) (d : Dict Entry) → Distinct d → Distinct (live ttl now d)
unfolding live
live-Distinct ttl now d h = keep_if-Distinct _ d h

pub length-live-le : (ttl now : ℕ) (d : Dict Entry) → length (live ttl now d) ≤ length d
unfolding live
length-live-le ttl now d = length-keep_if-le _ d

-- What a key reads as once the expired entries are gone.
abbrev pub fresh : ℕ → ℕ → Option Entry → Option Entry
fresh ttl now none = none
fresh ttl now (some e) = if is_expired ttl now e then none else some e

pub lookup-live :
    (ttl now : ℕ) (k : Text) (d : Dict Entry)
    → Distinct d
    → lookup k (live ttl now d) ≡ fresh ttl now (lookup k d)
unfolding live
lookup-live ttl now k d h =
    ground (arith, lookup-keep_if (λ (ke : Text × Entry). not (is_expired ttl now ke.1)) k d h)

-- With a positive limit the loop never pops from an empty dict: it drops the oldest entries, as
-- many as are needed for one more to fit.
pub make_room-drop :
    (max_entries : ℕ) (d : Dict Entry)
    → 0 < max_entries
    → make_room max_entries d ≡ ok (drop (length d + 1 - max_entries) d)
unfolding make_room
make_room-drop n [] h = ground (arith, drop-nil {A = Text × Entry} (1 - n))
make_room-drop n (e ∷ d) h = elim (Bool-cases (leb n (suc (length d)))) [
  | inl over ↦
      let q : suc (length d) + 1 - n ≡ suc (length d + 1 - n) = omega (arith, leb→le _ _ over) in
      rw (over, make_room, q) (make_room-drop n d h)
  | inr fits ↦ let q : suc (length d) + 1 - n ≡ 0 = ground arith in rw (fits, make_room, q) refl
]

pub move_to_end-hit :
    (k : Text) (e : Entry) (d : Dict Entry)
    → lookup k d ≡ some e
    → move_to_end k d ≡ erase k d ++ (k, e) ∷ []
unfolding move_to_end
move_to_end-hit k e d h = rw (h, move_to_end)

move_to_end-miss : (k : Text) (d : Dict Entry) → lookup k d ≡ none → move_to_end k d ≡ d
unfolding move_to_end
move_to_end-miss k d h = rw (h, move_to_end)

pub move_to_end-Distinct : (k : Text) (d : Dict Entry) → Distinct d → Distinct (move_to_end k d)
move_to_end-Distinct k d h = elim (Option-cases (lookup k d)) [
  | inl e ↦ rw (move_to_end-miss k d e) h
  | inr (v, e) ↦
      rw (move_to_end-hit k v d e)
        (append_last-Distinct k v (erase k d) (contains-erase_self k d) (erase-Distinct k d h))
]

pub length-move_to_end :
    (k : Text) (d : Dict Entry) → Distinct d → length (move_to_end k d) ≡ length d
length-move_to_end k d h = elim (Option-cases (lookup k d)) [
  | inl e ↦ rw (move_to_end-miss k d e)
  | inr (v, e) ↦
      rw (move_to_end-hit k v d e)
        (omega (arith, length-append {0} (erase k d) ((k, v) ∷ []), length-erase k d h (rw e)))
]

-- Recency changes the order, and nothing that can be read.
pub lookup-move_to_end : (j k : Text) (d : Dict Entry) → lookup j (move_to_end k d) ≡ lookup j d
lookup-move_to_end j k d = elim (Option-cases (lookup k d)) [
  | inl e ↦ rw (move_to_end-miss k d e)
  | inr (v, e) ↦ rw (move_to_end-hit k v d e) (
      ground (
        arith,
        lookup-append_last j k v (erase k d) (contains-erase_self k d),
        lookup-erase k j d,
        text_eq_iff k j,
      ))
]
