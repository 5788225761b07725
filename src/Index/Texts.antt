-- ===== src/Index/Texts.antt =====
-- Lines and names of files, for src/ida_multi_mcp/tools/index_store.py.
use ida_multi_mcp.Prelude.{
  ◌≡◌, refl, ◌⊎◌, inl, inr, true, false, List, [], ◌∷◌, ◌++◌, Text, text, text_eq, text_eq_refl,
  ◌==◌, Bool-cases, arith,
}
use ida_multi_mcp.Index.Names.{meta_name, new_shard_name, starts_with, ends_with, is_shard_name}
use ida_multi_mcp.Index.Rows.{lines, end_line}

-- No character ends a line.
abbrev pub OneLine : Text → Type 0
OneLine [] = Unit {0}
OneLine (c ∷ cs) = ((c == b'\n') ≡ false) × OneLine cs

-- The first line of a file, if a line end follows it.
pub lines-append : (l rest : Text) → OneLine l → lines (l ++ end_line ++ rest) ≡ l ∷ lines rest
unfolding lines
lines-append [] rest h = refl
lines-append (c ∷ cs) rest h = rw (h.0, lines-append cs rest h.1) refl

-- Empty, or ended by a line end.
abbrev pub Complete : Text → Type 0
Complete t = (t ≡ []) ⊎ ((u : Text) × (t ≡ u ++ end_line))

lines-cons : (u : Text) → (l : Text) × (ls : List Text) × (lines (u ++ end_line) ≡ l ∷ ls)
unfolding lines
lines-cons [] = ([], [], refl)
lines-cons (c ∷ cs) =
    let k = lines-cons cs in
    elim (Bool-cases (c == b'\n')) [
      | inl e ↦ ([], lines (cs ++ end_line), rw e refl)
      | inr e ↦ (c ∷ k.0, k.1, rw (e, k.2) refl)
    ]

-- The lines of a complete file stay as they are when more is appended.
lines-ended :
    (u rest : Text) → lines ((u ++ end_line) ++ rest) ≡ lines (u ++ end_line) ++ lines rest
unfolding lines
lines-ended [] rest = refl
lines-ended (c ∷ cs) rest =
    let k = lines-cons cs in
    elim (Bool-cases (c == b'\n')) [
      | inl e ↦ rw (e, lines-ended cs rest) refl
      | inr e ↦ rw (e, lines-ended cs rest, k.2) refl
    ]

pub lines-Complete : (t rest : Text) → Complete t → lines (t ++ rest) ≡ lines t ++ lines rest
unfolding lines
lines-Complete t rest (inl e) = rw e refl
lines-Complete t rest (inr (u, e)) = rw e (lines-ended u rest)

pub OneLine-append : (a b : Text) → OneLine a → OneLine b → OneLine (a ++ b)
OneLine-append [] b ha hb = hb
OneLine-append (c ∷ cs) b ha hb = (ha.0, OneLine-append cs b ha.1 hb)

pub text_eq-append : (k a b : Text) → text_eq (k ++ a) (k ++ b) ≡ text_eq a b
unfolding text_eq
text_eq-append [] a b = refl
text_eq-append (c ∷ cs) a b = ground (arith, text_eq-append cs a b)

pub starts_with-append : (k a p : Text) → starts_with (k ++ a) (k ++ p) ≡ starts_with a p
unfolding starts_with
starts_with-append [] a p = refl
starts_with-append (c ∷ cs) a p = ground (arith, starts_with-append cs a p)

pub ends_with-append : (k n s : Text) → ends_with n s ≡ true → ends_with (k ++ n) s ≡ true
unfolding ends_with
ends_with-append [] n s h = h
ends_with-append (c ∷ cs) n s h = ground (arith, ends_with-append cs n s h)

pub ends_with_self : (n : Text) → ends_with n n ≡ true
unfolding ends_with text_eq
ends_with_self [] = refl
ends_with_self (c ∷ cs) = ground (arith, text_eq_refl (c ∷ cs))

-- The meta file is no shard, under whatever fresh name.
pub meta_name-new_shard_name :
    (key uuid : Text) → text_eq (new_shard_name key uuid) (meta_name key) ≡ false
unfolding text_eq
meta_name-new_shard_name key uuid =
    text_eq-append key (text ".functions." ++ (uuid ++ text ".jsonl")) (text ".json")

pub meta_name-is_shard_name : (key : Text) → is_shard_name key (meta_name key) ≡ false
unfolding is_shard_name starts_with
meta_name-is_shard_name key = rw (starts_with-append key (text ".json") (text ".functions.")) refl
