-- ===== src/Cache/Behind.antt =====
-- How far an entry of the cache of src/ida_multi_mcp/cache.py stands from the most recently used one,
-- and how the dict's operations change that.
use ida_multi_mcp.Prelude.{
  ℕ, zero, suc, ◌+◌, ◌≤◌, ◌<◌, ◌≡◌, refl, ◌∙◌, Bool, false, [], ◌∷◌, ◌++◌, some, Text, text_eq,
  text_eq_refl, Dict, lookup, contains, insert, erase, length, drop, keep_if, if◌then◌else◌, arith,
  lookup-insert, contains-erase_self, length-keep_if-le, length-erase-le, length-append,
}
use ida_multi_mcp.Cache.{Entry, move_to_end}
use ida_multi_mcp.Cache.Evict.{live, lookup-move_to_end, move_to_end-hit}

-- How many entries stand behind the one with the id, the least recently used being first.
unfoldable pub behind : Text → Dict Entry → ℕ
unfolding text_eq
behind id [] = 0
behind id ((k, e) ∷ d) = if text_eq k id then length d else behind id d

behind-le : (id : Text) (d : Dict Entry) → behind id d ≤ length d
unfolding behind
behind-le id [] = omega arith
behind-le id ((k, e) ∷ d) = ground (arith, behind-le id d)

pub behind-lt :
    (id : Text) (e : Entry) (d : Dict Entry) → lookup id d ≡ some e → behind id d < length d
unfolding behind lookup
behind-lt id e [] h = absurd (ground arith)
behind-lt id e ((k, x) ∷ d) h = ground (arith, behind-lt id e d)

behind-keep_if :
    (test : Text × Entry → Bool) (id : Text) (d : Dict Entry)
    → behind id (keep_if test d) ≤ behind id d
unfolding behind
behind-keep_if test id [] = omega arith
behind-keep_if test id ((k, e) ∷ d) =
    ground
      (arith, behind-keep_if test id d, behind-le id (keep_if test d), length-keep_if-le test d)

pub behind-drop :
    (n : ℕ) (id : Text) (d : Dict Entry)
    → n + behind id d < length d
    → (lookup id (drop n d) ≡ lookup id d) × (behind id (drop n d) ≡ behind id d)
unfolding behind lookup
behind-drop zero id d h = (refl, refl)
behind-drop (suc n) id [] h = absurd (ground arith)
behind-drop (suc n) id ((k, e) ∷ d) h = ground (arith, behind-drop n id d)

pub behind-erase : (j id : Text) (d : Dict Entry) → behind id (erase j d) ≤ behind id d
unfolding behind erase
behind-erase j id [] = omega arith
behind-erase j id ((k, e) ∷ d) =
    ground (arith, behind-erase j id d, behind-le id (erase j d), length-erase-le j d)

behind-append :
    (id k : Text) (e : Entry) (d : Dict Entry)
    → text_eq k id ≡ false
    → behind id (d ++ (k, e) ∷ []) ≤ behind id d + 1
unfolding behind
behind-append id k e [] h = ground arith
behind-append id k e ((j, x) ∷ d) h =
    ground (arith, behind-append id k e d h, length-append {0} d ((k, e) ∷ []))

behind-append_self :
    (id : Text) (e : Entry) (d : Dict Entry)
    → contains id d ≡ false
    → behind id (d ++ (id, e) ∷ []) ≡ 0
unfolding behind lookup
behind-append_self id e [] h = ground (arith, text_eq_refl id)
behind-append_self id e ((j, x) ∷ d) h = ground (arith, behind-append_self id e d)

erase-insert : (j : Text) (e : Entry) (d : Dict Entry) → erase j (insert j e d) ≡ erase j d
unfolding insert erase
erase-insert j e [] = ground (arith, text_eq_refl j)
erase-insert j e ((k, x) ∷ d) = ground (arith, erase-insert j e d, text_eq_refl j)

pub behind-live :
    (ttl now : ℕ) (id : Text) (d : Dict Entry) → behind id (live ttl now d) ≤ behind id d
unfolding live
behind-live ttl now id d = behind-keep_if _ id d

-- Moving another entry behind one.
pub lookup_other :
    (id j : Text) (x : Entry) (d : Dict Entry)
    → text_eq j id ≡ false
    → lookup id (move_to_end j (insert j x d)) ≡ lookup id d
lookup_other id j x d other =
    lookup-move_to_end id j (insert j x d) ∙ lookup-insert j id x d ∙ rw other refl

pub behind_other :
    (id j : Text) (x : Entry) (d : Dict Entry)
    → text_eq j id ≡ false
    → lookup j d ≡ some x
    → behind id (move_to_end j d) ≤ behind id d + 1
behind_other id j x d other hit =
    rw (move_to_end-hit j x d hit)
      (omega (arith, behind-append id j x (erase j d) other, behind-erase j id d))

pub behind_put :
    (id j : Text) (x : Entry) (d : Dict Entry)
    → text_eq j id ≡ false
    → behind id (move_to_end j (insert j x d)) ≤ behind id d + 1
behind_put id j x d other =
    let hit : lookup j (insert j x d) ≡ some x = lookup-insert j j x d ∙ rw (text_eq_refl j) refl in
    rw (move_to_end-hit j x (insert j x d) hit, erase-insert j x d)
      (omega (arith, behind-append id j x (erase j d) other, behind-erase j id d))

pub behind_self :
    (id : Text) (e : Entry) (d : Dict Entry)
    → lookup id d ≡ some e
    → behind id (move_to_end id d) ≡ 0
behind_self id e d hit =
    rw (move_to_end-hit id e d hit)
      (behind-append_self id e (erase id d) (contains-erase_self id d))
