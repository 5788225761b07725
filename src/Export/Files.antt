-- ===== src/Export/Files.antt =====
-- The names of the files that src/ida_multi_mcp/server.py makes of function names.
use mathlib.Core.List.{append_assoc}
use ida_multi_mcp.Prelude.{
  ℕ, ◌≡◌, refl, Bool, true, false, not, ◌&&◌, ◌||◌, [], ◌∷◌, ◌++◌, Text, text, ◌==◌, ==_iff, arith,
  if-cases, ap, Bool-cases, inl, inr,
}
use ida_multi_mcp.Export.{
  reserved, is_in, substitute, replace_reserved, replace_dots, address_suffix, file_name,
  is_absolute,
}

-- Whether two dots stand side by side.
abbrev pub double_dot : Text → Bool
double_dot [] = false
double_dot (c ∷ []) = false
double_dot (c ∷ d ∷ cs) = (c == b'.' && d == b'.') || double_dot (d ∷ cs)

abbrev starts_with_dot : Text → Bool
starts_with_dot [] = false
starts_with_dot (c ∷ cs) = c == b'.'

-- A name without separators and without "..", so that it names an entry of its directory.
abbrev pub is_plain : Text → Bool
is_plain file = not (is_in b'/' file) && (not (is_in b'\\' file) && not (double_dot file))

is_in-append : (c : ℕ) (s t : Text) → is_in c (s ++ t) ≡ (is_in c s || is_in c t)
unfolding is_in
is_in-append c [] t = refl
is_in-append c (d ∷ s) t = ground (arith, is_in-append c s t)

module _ (c : ℕ) (special : (b'_' == c) ≡ false) where
  substitute-lacks :
      (test : ℕ → Bool) (t : Text) → test c ≡ true → is_in c (substitute test t) ≡ false
  unfolding is_in substitute
  substitute-lacks test [] h = refl
  substitute-lacks test (d ∷ t) h =
      let ih = substitute-lacks test t h in
      let same = ==_iff d c in
      if-cases (λ e. (e == c || is_in c (substitute test t)) ≡ false) (test d) (λ e. ground arith)
        (λ e. elim (Bool-cases (d == c)) [
          | inl q ↦ absurd (let s = ap test (same.0 q) in ground arith)
          | inr q ↦ ground arith
        ])

  replace_dots-lacks : (t : Text) → is_in c t ≡ false → is_in c (replace_dots t) ≡ false
  unfolding is_in replace_dots
  replace_dots-lacks [] h = refl
  replace_dots-lacks (d ∷ []) h = h
  replace_dots-lacks (d ∷ e ∷ t) h =
      ground (arith, replace_dots-lacks t, replace_dots-lacks (e ∷ t))

replace_dots-starts :
    (d : ℕ) (cs : Text) → starts_with_dot (replace_dots (d ∷ cs)) ≡ true → (d == b'.') ≡ true
unfolding replace_dots
replace_dots-starts d [] h = h
replace_dots-starts d (e ∷ cs) h = ground arith

double_dot-cons :
    (c : ℕ) (t : Text) → double_dot (c ∷ t) ≡ ((c == b'.' && starts_with_dot t) || double_dot t)
double_dot-cons c [] = ground arith
double_dot-cons c (d ∷ t) = refl

replace_dots-double_dot : (t : Text) → double_dot (replace_dots t) ≡ false
unfolding replace_dots
replace_dots-double_dot [] = refl
replace_dots-double_dot (c ∷ []) = refl
replace_dots-double_dot (c ∷ d ∷ t) = ground (
  arith,
  replace_dots-double_dot t,
  replace_dots-double_dot (d ∷ t),
  replace_dots-starts d t,
  double_dot-cons c (replace_dots (d ∷ t)),
  double_dot-cons b'_' (replace_dots t),
)

double_dot-under : (s t : Text) → double_dot (s ++ b'_' ∷ t) ≡ (double_dot s || double_dot t)
double_dot-under [] t = ground (arith, double_dot-cons b'_' t)
double_dot-under (c ∷ []) t = ground (arith, double_dot-cons b'_' t)
double_dot-under (c ∷ d ∷ s) t = ground (arith, double_dot-under (d ∷ s) t)

relative : (t : Text) → is_in b'/' t ≡ false → is_absolute t ≡ false
unfolding is_in
relative [] h = refl
relative (c ∷ t) h = ground arith

file_name-lacks :
    (c : ℕ) (name addr : Text)
    → (b'_' == c) ≡ false
    → is_in c reserved ≡ true
    → is_in c (text "0123456789ABCDEFabcdefx") ≡ false
    → is_in c (text ".c") ≡ false
    → is_in c (file_name name addr) ≡ false
unfolding file_name replace_reserved address_suffix
file_name-lacks c name addr special r a e =
    let test = λ (d : ℕ). not (is_in d (text "0123456789ABCDEFabcdefx")) in
    let safe = replace_dots (replace_reserved name) in
    let s1 = substitute-lacks c special (λ d. is_in d reserved) name r in
    let s2 = replace_dots-lacks c special (replace_reserved name) s1 in
    let s3 = substitute-lacks c special test addr (ap not a) in
    let j1 = is_in-append c (safe ++ b'_' ∷ substitute test addr) (text ".c") in
    let j2 = is_in-append c safe (b'_' ∷ substitute test addr) in rw (j1, j2, s2, e) (ground arith)

double_dot-suffix : (s : Text) → is_in b'.' s ≡ false → double_dot (s ++ text ".c") ≡ false
unfolding is_in
double_dot-suffix [] h = refl
double_dot-suffix (c ∷ []) h = ground arith
double_dot-suffix (c ∷ d ∷ s) h = ground (arith, double_dot-suffix (d ∷ s))

file_name-double_dot : (name addr : Text) → double_dot (file_name name addr) ≡ false
unfolding file_name address_suffix
file_name-double_dot name addr =
    let test = λ (d : ℕ). not (is_in d (text "0123456789ABCDEFabcdefx")) in
    let safe = replace_dots (replace_reserved name) in
    let suffix = substitute test addr in
    let dot : test b'.' ≡ true = unfold is_in in refl in
    let none = substitute-lacks b'.' refl test addr dot in
    rw
      (
        append_assoc safe (b'_' ∷ suffix) (text ".c"),
        double_dot-under safe (suffix ++ text ".c"),
        replace_dots-double_dot (replace_reserved name),
        double_dot-suffix suffix none,
      )
      refl

-- A file is named after a function, whatever its name and address are, by an entry of the directory:
-- the file name has no separator and no "..", and is not absolute.
pub file_name-plain :
    (name addr : Text)
    → (is_plain (file_name name addr) ≡ true) × (is_absolute (file_name name addr) ≡ false)
file_name-plain name addr =
    let slash : is_in b'/' (file_name name addr) ≡ false =
      unfold is_in in file_name-lacks b'/' name addr refl refl refl refl in
    let backslash : is_in b'\\' (file_name name addr) ≡ false =
      unfold is_in in file_name-lacks b'\\' name addr refl refl refl refl in
    let dots = file_name-double_dot name addr in
    (rw (slash, backslash, dots) refl, relative (file_name name addr) slash)
