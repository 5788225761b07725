-- ===== src/Similarity/Sets.antt =====
-- Members of the lists that stand for Python's sets in src/ida_multi_mcp/tools/sim_score.py.
use ida_multi_mcp.Prelude.{
  ℕ, ◌+◌, ◌≡◌, refl, ◌||◌, List, [], ◌∷◌, ◌++◌, Text, text_eq, text_eq_iff, text_in, if◌then◌else◌,
  arith,
}
use ida_multi_mcp.Similarity.{set_of}

pub text_in-append :
    (x : Text) (xs ys : List Text) → text_in x (xs ++ ys) ≡ text_in x xs || text_in x ys
unfolding text_in
text_in-append x [] ys = refl
text_in-append x (y ∷ xs) ys = ground (arith, text_in-append x xs ys)

pub text_in-set_of : (x : Text) (xs : List Text) → text_in x (set_of xs) ≡ text_in x xs
unfolding set_of text_in
text_in-set_of x [] = refl
text_in-set_of x (y ∷ xs) =
    ground (arith, text_in-set_of x xs, text_in-set_of y xs, text_eq_iff y x)

-- How often an element stands in a list.
abbrev pub occurs : Text → List Text → ℕ
occurs x [] = 0
occurs x (y ∷ ys) = (if text_eq y x then 1 else 0) + occurs x ys

pub occurs-set_of :
    (x : Text) (xs : List Text) → occurs x (set_of xs) ≡ (if text_in x xs then 1 else 0)
unfolding set_of text_in
occurs-set_of x [] = refl
occurs-set_of x (y ∷ xs) = ground (arith, occurs-set_of x xs, text_in-set_of y xs, text_eq_iff y x)
