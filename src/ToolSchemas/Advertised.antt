-- ===== src/ToolSchemas/Advertised.antt =====
-- What the tool cache of src/ida_multi_mcp/server.py advertises.
use mathlib.Core.Path.{subst}
use ida_multi_mcp.Prelude.{
  ◌≡◌, refl, ◌∙◌, Bool, true, false, List, [], ◌∷◌, Option, none, some, Text, text, text_eq, Dict,
  lookup, contains, if◌then◌else◌, arith, Bool-cases, if-cases, not, inl, inr,
}
use ida_multi_mcp.Json.{
  Json, null, boolean, number, string, array, object, Members, member_of, set_member,
}
use ida_multi_mcp.ToolSchemas.{has_object_type, is_text, is_true}
use ida_multi_mcp.ToolSchemas.Building.{
  advertise_output, bare_object, result_object, advertise, advertise_all, add_tools, first_answer,
  build_tool_cache,
}
use ida_multi_mcp.ToolSchemas.Asks.{
  bind-cases, member_of-set_member, asks_instance_id, AllAsk, AllAskOf, own-AllAsk,
  add_tools-AllAsk,
}

-- Whether the output of a tool is described by the schema of an object.
abbrev pub output_is_object : Option Json → Bool
output_is_object (some (object os)) = has_object_type os
output_is_object _ = false

abbrev pub promises_object : Members → Bool
promises_object schema = output_is_object (member_of (text "outputSchema") schema)

-- The last loop gives a schema an output that is an object, and leaves its input alone.
abbrev pub AdvertisedAs : Members → Option Members → Type 0
AdvertisedAs s none = Unit {0}
AdvertisedAs s (some s') = (promises_object s' ≡ true) × (asks_instance_id s' ≡ asks_instance_id s)

set_output :
    (s os : Members)
    → has_object_type os ≡ true
    → AdvertisedAs s (some (set_member (text "outputSchema") (object os) s))
unfolding text_eq
set_output s os e =
    let a = member_of-set_member (text "outputSchema") (text "outputSchema") (object os) s in
    let b = member_of-set_member (text "outputSchema") (text "inputSchema") (object os) s in
    (rw a e, rw b refl)

bare-advertised :
    (s : Members) → AdvertisedAs s (some (set_member (text "outputSchema") (object bare_object) s))
unfolding has_object_type member_of is_text text_eq
bare-advertised s = set_output s bare_object refl

not_dict-advertised :
    (s : Members) (v : Json)
    → AdvertisedAs s
        (if is_true v then none else some (set_member (text "outputSchema") (object bare_object) s))
not_dict-advertised s v = if-cases (AdvertisedAs s) (is_true v) (λ e. tt) (λ e. bare-advertised s)

advertise_output_lem :
    (s : Members) (o : Option Json)
    → member_of (text "outputSchema") s ≡ o
    → AdvertisedAs s (advertise_output s o)
unfolding advertise_output
advertise_output_lem s none e = bare-advertised s
advertise_output_lem s (some null) e = not_dict-advertised s null
advertise_output_lem s (some (boolean b)) e = not_dict-advertised s (boolean b)
advertise_output_lem s (some (number t)) e = not_dict-advertised s (number t)
advertise_output_lem s (some (string t)) e = not_dict-advertised s (string t)
advertise_output_lem s (some (array is)) e = not_dict-advertised s (array is)
advertise_output_lem s (some (object os)) e =
    if-cases (AdvertisedAs s) (not (is_true (object os))) (λ empty. bare-advertised s)
      (λ full.
        if-cases (AdvertisedAs s) (has_object_type os) (λ typed. (rw e typed, refl))
          (λ untyped.
            set_output s (result_object (object os))
              (unfold has_object_type member_of is_text text_eq in refl)))

advertise_lem : (s : Members) → AdvertisedAs s (advertise s)
unfolding advertise
advertise_lem s = advertise_output_lem s (member_of (text "outputSchema") s) refl

-- The schemas after the last loop are those before it, advertised.
abbrev Related : Dict Members → Option (Dict Members) → Type 0
Related d none = Unit {0}
Related d (some d') =
    (k : Text) (s' : Members)
    → lookup k d' ≡ some s'
    → (s : Members) × (lookup k d ≡ some s) × AdvertisedAs s (some s')

advertise_all-AdvertisedAs : (d : Dict Members) → Related d (advertise_all d)
unfolding advertise_all lookup
advertise_all-AdvertisedAs [] = λ k s' e. absurd (cc)
advertise_all-AdvertisedAs ((j, s) ∷ d) = bind-cases (Related ((j, s) ∷ d)) (advertise s) tt λ s1 a.
    bind-cases (Related ((j, s) ∷ d)) (advertise_all d) tt λ d1 r.
      let one = subst (AdvertisedAs s) a (advertise_lem s) in
      let others = subst (Related d) r (advertise_all-AdvertisedAs d) in
      λ k s' e. elim (Bool-cases (text_eq j k)) [
        | inl q ↦
            let same : s1 ≡ s' = ground arith in
            (s, rw q refl, subst (λ u. AdvertisedAs s (some u)) same one)
        | inr q ↦ let (u, f, g) = others k s' (ground arith) in (u, rw q f, g)
      ]

-- What a cache promises.
abbrev AllAdvertised : Dict Members → Option (Dict Members) → Type 0
AllAdvertised own none = Unit {0}
AllAdvertised own (some cache) =
    (k : Text) (s : Members)
    → lookup k cache ≡ some s
    → (promises_object s ≡ true) × (contains k own ≡ false → asks_instance_id s ≡ true)

-- The last loop on a cache whose schemas ask.
loop-AllAdvertised :
    (own d : Dict Members) (o : Option (Dict Members))
    → AllAsk own d
    → Related d o
    → AllAdvertised own o
loop-AllAdvertised own d none a r = tt
loop-AllAdvertised own d (some cache) a r = λ k s found.
    let (before, known, same) = r k s found in (same.0, λ other. same.1 ∙ a k before other known)

built-AllAdvertised :
    (own : Dict Members) (static : List Members) (answers : List (List Members))
    → AllAdvertised own (build_tool_cache own static answers)
unfolding build_tool_cache
built-AllAdvertised own static answers =
    bind-cases (AllAdvertised own) (add_tools own static) tt λ c1 e1.
      let a1 = subst (AllAskOf own) e1 (add_tools-AllAsk own own static (own-AllAsk own)) in
      bind-cases (AllAdvertised own) (add_tools c1 (first_answer answers)) tt λ c2 e2.
        let a2 = subst (AllAskOf own) e2 (add_tools-AllAsk own c1 (first_answer answers) a1) in
        loop-AllAdvertised own c2 (advertise_all c2) a2 (advertise_all-AdvertisedAs c2)

-- When the tool cache is built, every tool that it advertises promises an object as its output, and
-- every tool but the server's own has the parameter `instance_id` and requires it, whatever schemas
-- the bundled file and the first instance that answers give.
pub build_tool_cache-AllAdvertised :
    (own : Dict Members) (static : List Members) (answers : List (List Members))
    (cache : Dict Members) (k : Text) (s : Members)
    → build_tool_cache own static answers ≡ some cache
    → lookup k cache ≡ some s
    → (promises_object s ≡ true) × (contains k own ≡ false → asks_instance_id s ≡ true)
build_tool_cache-AllAdvertised own static answers cache k s built found =
    subst (AllAdvertised own) built (built-AllAdvertised own static answers) k s found
