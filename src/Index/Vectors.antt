-- ===== src/Index/Vectors.antt =====
-- The rows that src/ida_multi_mcp/tools/index_store.py appends to the vectors of an index, and those
-- that it reads back.
use ida_multi_mcp.Prelude.{
  ◌≡◌, refl, ap, sym, ◌∙◌, inl, inr, true, List, [], ◌∷◌, ◌++◌, Option, none, some, Text, text,
  Dict, lookup, insert, strip, lookup-insert, or_default, text_eq_refl, Option-cases,
}
use mathlib.Core.Path.{subst}
use mathlib.Core.List.{append_assoc}
use ida_multi_mcp.Registry.Schema.{Python, Value}
use ida_multi_mcp.Index.Names.{is_valid_key, vectors_name}
use ida_multi_mcp.Index.Rows.{
  Json, Parsed, blank, invalid, no_row, row, vector_step, parse_line, lines, end_line, dump_jsonl,
  read_vectors_rows, read_jsonl,
}
use ida_multi_mcp.Index.Texts.{OneLine, Complete, OneLine-append, lines-append, lines-Complete}
use ida_multi_mcp.Index.{Files, Os, read_vectors, append_vectors}

-- What `json.dumps` writes of a row is one line without white space around it that begins with a
-- brace, and `json.loads` reads it back.
abbrev pub Works : Python → Json → Text → Text → Value → Type 0
Works py js key a v =
    OneLine (js.dumps key a v)
    × (js.loads key (js.dumps key a v) ≡ row a v)
    × (strip py.is_space (js.dumps key a v) ≡ js.dumps key a v)
    × ((rest : Text) × (js.dumps key a v ≡ b'{' ∷ rest))

abbrev pub AllWork : Python → Json → Text → Dict Value → Type 0
AllWork py js key [] = Unit {0}
AllWork py js key ((a, v) ∷ rows) = Works py js key a v × AllWork py js key rows

-- `d.update(rows)`
abbrev pub insert_all : Dict Value → Dict Value → Dict Value
insert_all [] d = d
insert_all ((a, v) ∷ rows) d = insert_all rows (insert a v d)

module _ (py : Python) (js : Json) where
  parse_line-dumps :
      (key a : Text) (v : Value)
      → Works py js key a v
      → parse_line py js key (js.dumps key a v) ≡ row a v
  unfolding parse_line
  parse_line-dumps key a v k =
      let brace : (rest : Text) × (js.dumps key a v ≡ b'{' ∷ rest) = k.3 in
      subst
        (λ t. (elim t as (λ x. Parsed) [ [] ↦ blank | c ∷ cs ↦ js.loads key (c ∷ cs) ]) ≡ row a v)
        (sym (k.2 ∙ brace.1)) (ap (js.loads key) (sym brace.1) ∙ k.1)

  read_vectors_rows-dump_jsonl :
      (rows d : Dict Value)
      → AllWork py js (text "vec") rows
      → read_vectors_rows py js (lines (dump_jsonl js (text "vec") rows)) d
        ≡ some (insert_all rows d)
  unfolding read_vectors_rows dump_jsonl lines
  read_vectors_rows-dump_jsonl [] d w = refl
  read_vectors_rows-dump_jsonl ((a, v) ∷ rows) d w =
      let ih = read_vectors_rows-dump_jsonl rows (insert a v d) w.1 in
      rw
        (
          lines-append (js.dumps (text "vec") a v) (dump_jsonl js (text "vec") rows) w.0.0,
          parse_line-dumps (text "vec") a v w.0,
          ih,
        )
        refl

  pub read_jsonl-dump_jsonl :
      (rows d : Dict Value)
      → AllWork py js (text "feat") rows
      → read_jsonl py js (lines (dump_jsonl js (text "feat") rows)) d ≡ some (insert_all rows d)
  unfolding read_jsonl dump_jsonl lines
  read_jsonl-dump_jsonl [] d w = refl
  read_jsonl-dump_jsonl ((a, v) ∷ rows) d w =
      let ih = read_jsonl-dump_jsonl rows (insert a v d) w.1 in
      rw
        (
          lines-append (js.dumps (text "feat") a v) (dump_jsonl js (text "feat") rows) w.0.0,
          parse_line-dumps (text "feat") a v w.0,
          ih,
        )
        refl

  -- The rows of two parts are read one after the other.
  abbrev then_rows : List Text → Option (Dict Value) → Option (Dict Value)
  then_rows ls none = none
  then_rows ls (some d) = read_vectors_rows py js ls d

  vector_step-then :
      (ms : List Text) (p : Parsed) (f g : Dict Value → Option (Dict Value)) (d : Dict Value)
      → ((d : Dict Value) → g d ≡ then_rows ms (f d))
      → vector_step p g d ≡ then_rows ms (vector_step p f d)
  vector_step-then ms blank f g d h = h d
  vector_step-then ms (row a v) f g d h = h (insert a v d)
  vector_step-then ms invalid f g d h = h d
  vector_step-then ms no_row f g d h = refl

  read_vectors_rows-append :
      (ls ms : List Text) (d : Dict Value)
      → read_vectors_rows py js (ls ++ ms) d ≡ then_rows ms (read_vectors_rows py js ls d)
  unfolding read_vectors_rows
  read_vectors_rows-append [] ms d = refl
  read_vectors_rows-append (l ∷ ls) ms d =
      vector_step-then ms (parse_line py js (text "vec") l) (read_vectors_rows py js ls)
        (read_vectors_rows py js (ls ++ ms)) d (read_vectors_rows-append ls ms)

  -- What the reader has after the rows of a whole file and those of an appended one.
  appended_rows :
      (whole : Text) (rows old d : Dict Value)
      → AllWork py js (text "vec") rows
      → Complete whole
      → read_vectors_rows py js (lines whole) d ≡ some old
      → read_vectors_rows py js (lines (whole ++ dump_jsonl js (text "vec") rows)) d
        ≡ some (insert_all rows old)
  appended_rows whole rows old d w h e =
      rw
        (
          lines-Complete whole (dump_jsonl js (text "vec") rows) h,
          read_vectors_rows-append (lines whole) (lines (dump_jsonl js (text "vec") rows)) d,
          e,
        )
        (read_vectors_rows-dump_jsonl rows old w)

  torn_then :
      (l rest : Text)
      → OneLine l
      → parse_line py js (text "vec") l ≡ invalid
      → (d : Dict Value)
      → read_vectors_rows py js (lines (l ++ end_line ++ rest)) d
        ≡ read_vectors_rows py js (lines rest) d
  unfolding read_vectors_rows
  torn_then l rest one bad d = rw (lines-append l rest one, bad) refl

  -- A line without an end in front of the appended rows: it spoils the first of them.
  torn_rows :
      (whole torn a : Text) (v : Value) (rows old d : Dict Value)
      → AllWork py js (text "vec") ((a, v) ∷ rows)
      → Complete whole
      → OneLine torn
      → parse_line py js (text "vec") (torn ++ js.dumps (text "vec") a v) ≡ invalid
      → read_vectors_rows py js (lines whole) d ≡ some old
      → read_vectors_rows py js
          (lines (whole ++ (torn ++ dump_jsonl js (text "vec") ((a, v) ∷ rows))))
          d
        ≡ some (insert_all rows old)
  unfolding dump_jsonl
  torn_rows whole torn a v rows old d w h one bad e =
      let row_text = js.dumps (text "vec") a v in
      let rest = dump_jsonl js (text "vec") rows in
      let joined = torn ++ row_text in
      let text_joined : torn ++ (row_text ++ end_line ++ rest) ≡ joined ++ end_line ++ rest =
        sym (append_assoc torn (row_text ++ end_line) rest)
        ∙ ap (λ t. t ++ rest) (sym (append_assoc torn row_text end_line)) in
      rw
        (
          text_joined,
          lines-Complete whole (joined ++ end_line ++ rest) h,
          read_vectors_rows-append (lines whole) (lines (joined ++ end_line ++ rest)) d,
          e,
        )
        (torn_then joined rest (OneLine-append torn row_text one w.0.0) bad old
          ∙ read_vectors_rows-dump_jsonl rows old w.1)

module _ (py : Python) (os : Os) (key : Text) (d : Files) where
  abbrev before : Text
  before = or_default (lookup (vectors_name key) d) []

  -- `read_vectors` of what `append_vectors` leaves.
  abbrev pub then_read : Option Files → Option (Option (Dict Value))
  then_read none = none
  then_read (some d') = read_vectors os py key d'

  read_vectors-before :
      is_valid_key key ≡ true
      → read_vectors os py key d ≡ some (read_vectors_rows py os.json (lines before) [])
  unfolding read_vectors
  read_vectors-before k = elim (Option-cases (lookup (vectors_name key) d)) [
    | inl e ↦ rw (k, e) refl
    | inr (t, e) ↦ rw (k, e) refl
  ]

  then_read-append :
      (r : Text × Value) (rows : Dict Value)
      → is_valid_key key ≡ true
      → then_read (append_vectors os key (r ∷ rows) d)
        ≡ some (
            read_vectors_rows py os.json
              (lines (before ++ dump_jsonl os.json (text "vec") (r ∷ rows)))
              [])
  unfolding append_vectors read_vectors
  then_read-append r rows k =
      let t = before ++ dump_jsonl os.json (text "vec") (r ∷ rows) in
      rw
        (
          k,
          lookup-insert (vectors_name key) (vectors_name key) t d,
          text_eq_refl (vectors_name key),
          k,
        )
        refl

  -- Under a valid key, rows appended to a complete file are read back after the rows before, as
  -- updates of them.
  pub read_vectors-append_vectors :
      (r : Text × Value) (rows old : Dict Value)
      → AllWork py os.json (text "vec") (r ∷ rows)
      → is_valid_key key ≡ true
      → Complete before
      → read_vectors os py key d ≡ some (some old)
      → then_read (append_vectors os key (r ∷ rows) d) ≡ some (some (insert_all (r ∷ rows) old))
  read_vectors-append_vectors r rows old w k c e =
      let q : read_vectors_rows py os.json (lines before) [] ≡ some old =
        cc (read_vectors-before k) in
      then_read-append r rows k ∙ ap some (appended_rows py os.json before (r ∷ rows) old [] w c q)

  -- Under a valid key, if the file ends in a torn line, then of the rows appended next the first is
  -- lost too, if its text behind the torn one is no JSON.
  pub read_vectors-append_torn :
      (whole torn a : Text) (v : Value) (rows old : Dict Value)
      → AllWork py os.json (text "vec") ((a, v) ∷ rows)
      → is_valid_key key ≡ true
      → before ≡ whole ++ torn
      → Complete whole
      → OneLine torn
      → parse_line py os.json (text "vec") (torn ++ os.json.dumps (text "vec") a v) ≡ invalid
      → read_vectors_rows py os.json (lines whole) [] ≡ some old
      → then_read (append_vectors os key ((a, v) ∷ rows) d) ≡ some (some (insert_all rows old))
  read_vectors-append_torn whole torn a v rows old w k b c one bad e =
      then_read-append (a, v) rows k
      ∙ rw (b, append_assoc whole torn (dump_jsonl os.json (text "vec") ((a, v) ∷ rows)))
          (ap some (torn_rows py os.json whole torn a v rows old [] w c one bad e))
