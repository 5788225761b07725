-- ===== src/Registry/Expiry.antt =====
-- `cleanup_expired` of src/ida_multi_mcp/registry.py: what it removes, how much, and the bound on
-- what is left.
use ida_multi_mcp.Prelude.{
  ℕ, zero, suc, ◌+◌, ◌-◌, ◌≤◌, ◌≡◌, refl, ap, ◌∙◌, inl, inr, Bool, not, [], ◌∷◌, Text, Dict,
  Distinct, length, drop, keep_if, ltb, or_default, Bool-cases, arith, keep_if-Distinct,
  length-drop,
}
use ida_multi_mcp.Registry.Schema.{Python, str, Expired, Data, max_expired}
use ida_multi_mcp.Registry.Changes.{is_old, drop_old, cap_expired, cleanup_expired_in}
use ida_multi_mcp.Registry.Invariant.{IsValid}

-- Whether an expired entry has been there for too long.
abbrev pub is_aged : Python → ℕ → ℕ → Expired → Bool
is_aged py now age e = is_old py now age (or_default e.expired_at (str []))

drop_old-keep_if :
    (py : Python) (now age : ℕ) (d : Dict Expired)
    → ((drop_old py now age d).0 ≡ keep_if (λ ke. not (is_aged py now age ke.1)) d)
      × (length (drop_old py now age d).0 + (drop_old py now age d).1 ≡ length d)
unfolding drop_old
drop_old-keep_if py now age [] = (refl, omega arith)
drop_old-keep_if py now age ((id, e) ∷ d) = ground (arith, drop_old-keep_if py now age d)

cap_expired-drop :
    (d : Dict Expired)
    → ((cap_expired d).0 ≡ drop (length d - max_expired) d)
      × ((cap_expired d).1 ≡ length d - max_expired)
unfolding cap_expired
cap_expired-drop [] = (refl, omega arith)
cap_expired-drop (e ∷ d) = elim (Bool-cases (ltb max_expired (suc (length d)))) [
  | inl over ↦
      let q : suc (length d) - max_expired ≡ suc (length d - max_expired) = ground arith in
      rw (over, cap_expired, q) (ground (arith, cap_expired-drop d))
  | inr fits ↦
      let q : suc (length d) - max_expired ≡ 0 = ground arith in
      rw (fits, cap_expired, q) (refl, refl)
]

-- `cleanup_expired` keeps the entries that are young enough, in their order and of these the last
-- 200; it touches nothing else, and returns how many entries it removed.
pub cleanup_expired_in_lem :
    (py : Python) (now age : ℕ) (d : Data)
    → let (d', removed) = cleanup_expired_in py now age d in
      let young = keep_if (λ ke. not (is_aged py now age ke.1)) d.expired in
      (d'.expired ≡ drop (length young - max_expired) young)
      × (length d'.expired ≤ max_expired)
      × (length d'.expired + removed ≡ length d.expired)
      × (d'.instances ≡ d.instances)
      × (d'.active_instance ≡ d.active_instance)
unfolding cleanup_expired_in
cleanup_expired_in_lem py now age d =
    let old = drop_old-keep_if py now age d.expired in
    let capped = cap_expired-drop (drop_old py now age d.expired).0 in
    (let young = (drop_old py now age d.expired).0 in
      let cut : length (cap_expired young).0 ≡ length young - (length young - max_expired) =
        ap length capped.0 ∙ length-drop (length young - max_expired) young in
      (
        capped.0 ∙ ap (λ (y : Dict Expired). drop (length y - max_expired) y) old.0,
        omega (arith, cut),
        omega (arith, cut, old.1, capped.1),
        refl,
        refl,
      ))

Distinct-drop : (n : ℕ) (d : Dict Expired) → Distinct d → Distinct (drop n d)
Distinct-drop zero d h = h
Distinct-drop (suc n) [] h = h
Distinct-drop (suc n) (e ∷ d) h = Distinct-drop n d h.1

pub cleanup_expired_in-IsValid :
    (py : Python) (now age : ℕ) (d : Data) → IsValid d → IsValid (cleanup_expired_in py now age d).0
cleanup_expired_in-IsValid py now age d v =
    let l = cleanup_expired_in_lem py now age d in
    let young = keep_if (λ (ke : Text × Expired). not (is_aged py now age ke.1)) d.expired in
    record {
      ids = rw l.3 v.ids;
      expired_ids = rw l.0 (
          Distinct-drop (length young - max_expired) young
            (keep_if-Distinct _ d.expired v.expired_ids));
      elected = rw (l.3, l.4) v.elected;
      bounded = rw l.3 v.bounded;
    }
