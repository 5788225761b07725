-- ===== src/ToolSchemas/Asks.antt =====
-- Every tool of IDA in the tool cache of src/ida_multi_mcp/server.py asks for `instance_id`.
use mathlib.Core.Path.{subst}
use ida_multi_mcp.Prelude.{
  ◌≡◌, refl, sym, ap, ◌∙◌, Bool, true, false, ◌&&◌, List, [], ◌∷◌, Option, none, some, Text, text,
  text_eq, text_eq_iff, Dict, lookup, insert, contains, is_some, lookup-insert, if◌then◌else◌,
  arith, Bool-cases, option-cases, inl, inr,
}
use ida_multi_mcp.Json.{
  Json, null, boolean, number, string, array, object, Items, no_items, item, Members, no_members,
  member, member_of, set_member,
}
use ida_multi_mcp.ToolSchemas.{◌>>=◌, is_text, get_true}
use ida_multi_mcp.ToolSchemas.Building.{
  has_instance_id, append_item, has_part, with_required, with_property, require_instance_id,
  as_dict, append_description, add_tool, add_tools, describe, longer, name_of, addition,
  instance_id_schema,
}

-- What holds of an exception, and of what follows a value, holds of the sequence.
pub bind-cases {ℓ ℓ' ℓ''} :
    {A : Type ℓ} {B : Type ℓ'} (P : Option B → Type ℓ'') (m : Option A) {f : A → Option B}
    → P none
    → ((a : A) → m ≡ some a → P (f a))
    → P (m >>= f)
bind-cases P none n p = n
bind-cases P (some a) n p = p a refl

pub some-inj {ℓ} : {A : Type ℓ} (a b : A) → Option.some a ≡ some b → a ≡ b
some-inj a b h = cc

pub member_of-set_member :
    (k j : Text) (v : Json) (ms : Members)
    → member_of j (set_member k v ms) ≡ (if text_eq k j then some v else member_of j ms)
unfolding member_of set_member
member_of-set_member k j v no_members = refl
member_of-set_member k j v (member i w ms) =
    ground (arith, text_eq_iff k j, text_eq_iff i k, text_eq_iff i j, member_of-set_member k j v ms)

-- Whether a list of required parameters names `instance_id`.
abbrev pub lists_instance_id : Option Json → Bool
lists_instance_id (some (array is)) = has_instance_id is
lists_instance_id (some (string t)) = has_part (text "instance_id") t
lists_instance_id (some (object ms)) = is_some (member_of (text "instance_id") ms)
lists_instance_id _ = false

-- Whether a tool has the parameter `instance_id`, described as the server does, and requires it.
abbrev pub input_asks : Option Json → Bool
input_asks (some (object input)) =
    lists_instance_id (member_of (text "required") input)
    && elim (member_of (text "properties") input) [
      | some (object props) ↦ is_some (member_of (text "instance_id") props)
      | _ ↦ false
    ]
input_asks _ = false

abbrev pub asks_instance_id : Members → Bool
asks_instance_id schema = input_asks (member_of (text "inputSchema") schema)

has_instance_id-append :
    (is : Items) → has_instance_id (append_item is (string (text "instance_id"))) ≡ true
unfolding has_instance_id append_item is_text text_eq
has_instance_id-append no_items = refl
has_instance_id-append (item v is) = ground (arith, has_instance_id-append is)

with_required_lem : (v w : Json) → with_required v ≡ some w → lists_instance_id (some w) ≡ true
unfolding with_required
with_required_lem null w h = absurd (cc)
with_required_lem (boolean b) w h = absurd (cc)
with_required_lem (number t) w h = absurd (cc)
with_required_lem (string t) w h = ground arith
with_required_lem (array is) w h = ground (arith, has_instance_id-append is)
with_required_lem (object ms) w h = ground arith

with_property_lem :
    (v w : Json)
    → with_property v ≡ some w
    → (props : Members) × (w ≡ object props)
      × (is_some (member_of (text "instance_id") props) ≡ true)
unfolding with_property text_eq
with_property_lem null w h = absurd (cc)
with_property_lem (boolean b) w h = absurd (cc)
with_property_lem (number t) w h = absurd (cc)
with_property_lem (string t) w h = absurd (cc)
with_property_lem (array is) w h = absurd (cc)
with_property_lem (object ms) w h =
    let id = text "instance_id" in
    (
      set_member id instance_id_schema ms,
      cc,
      ap is_some (member_of-set_member id id instance_id_schema ms),
    )

-- The answer for a schema that an operation returns; there is nothing to ask of an exception.
abbrev asks_of : Option Members → Bool
asks_of none = true
asks_of (some s) = asks_instance_id s

-- What `require_instance_id` puts together asks for the parameter.
asks-rebuilt :
    (schema input props : Members) (properties required : Json)
    → properties ≡ object props
    → lists_instance_id (some required) ≡ true
    → is_some (member_of (text "instance_id") props) ≡ true
    → asks_instance_id (
        set_member
          (text "inputSchema")
          (object (
            set_member
              (text "required")
              required
              (set_member (text "properties") properties input)))
          schema)
      ≡ true
unfolding text_eq
asks-rebuilt schema input props properties required q r p =
    let with_props = set_member (text "properties") properties input in
    let whole = set_member (text "required") required with_props in
    let a = member_of-set_member (text "inputSchema") (text "inputSchema") (object whole) schema in
    let b = member_of-set_member (text "required") (text "required") required with_props in
    let c = member_of-set_member (text "required") (text "properties") required with_props in
    let d = member_of-set_member (text "properties") (text "properties") properties input in
    rw (a, b, c, d, q) (ground arith)

abbrev Asks : Option Members → Type 0
Asks o = asks_of o ≡ true

require-Asks : (s : Members) → Asks (require_instance_id s)
unfolding require_instance_id
require-Asks s =
    bind-cases Asks (as_dict (get_true (text "inputSchema") (object no_members) s)) refl λ input e.
      let old = get_true (text "properties") (object no_members) input in
      let old_required = get_true (text "required") (array no_items) input in
      bind-cases Asks (with_property old) refl λ properties p.
        bind-cases Asks (with_required old_required) refl λ required r.
          let (props, q, has) = with_property_lem old properties p in
          let lists = with_required_lem old_required required r in
          asks-rebuilt s input props properties required q lists has

keeps-input :
    (key : Text) (v : Json) (s : Members)
    → text_eq key (text "inputSchema") ≡ false
    → asks_instance_id (set_member key v s) ≡ asks_instance_id s
keeps-input key v s e = rw (member_of-set_member key (text "inputSchema") v s, e) refl

append-Asks :
    (more : Text) (s : Members) → asks_instance_id s ≡ true → Asks (append_description more s)
unfolding append_description
append-Asks more s a =
    bind-cases Asks (longer more (member_of (text "description") s)) refl
      λ t e. keeps-input (text "description") (string t) s refl ∙ a

describe-Asks : (name : Text) (s : Members) → asks_instance_id s ≡ true → Asks (describe name s)
unfolding describe
describe-Asks name s a = option-cases Asks (addition name) (λ e. a) (λ more e. append-Asks more s a)

-- Every tool that is not the server's own asks for `instance_id`.
abbrev pub AllAsk : Dict Members → Dict Members → Type 0
AllAsk own cache =
    (k : Text) (s : Members)
    → contains k own ≡ false
    → lookup k cache ≡ some s
    → asks_instance_id s ≡ true

pub own-AllAsk : (own : Dict Members) → AllAsk own own
own-AllAsk own k s h e = ground arith

insert-AllAsk :
    (own cache : Dict Members) (k : Text) (s : Members)
    → AllAsk own cache
    → asks_instance_id s ≡ true
    → AllAsk own (insert k s cache)
insert-AllAsk own cache k s a h j s' o e =
    let l = lookup-insert k j s cache in
    let old = a j s' o in
    elim (Bool-cases (text_eq k j)) [
      | inl q ↦ rw (some-inj s' s (sym e ∙ l ∙ rw q refl)) h
      | inr q ↦ old (sym (l ∙ rw q refl) ∙ e)
    ]

-- The same of a cache that an operation returns.
abbrev pub AllAskOf : Dict Members → Option (Dict Members) → Type 0
AllAskOf own none = Unit {0}
AllAskOf own (some cache) = AllAsk own cache

add_tool-AllAsk :
    (own cache : Dict Members) (t : Members) → AllAsk own cache → AllAskOf own (add_tool cache t)
unfolding add_tool
add_tool-AllAsk own cache t a = bind-cases (AllAskOf own) (require_instance_id t) tt λ s r.
    let asks = sym (ap asks_of r) ∙ require-Asks t in
    bind-cases (AllAskOf own) (name_of s) tt λ name n.
      bind-cases (AllAskOf own) (describe name s) tt λ described d.
        insert-AllAsk own cache name described a (sym (ap asks_of d) ∙ describe-Asks name s asks)

pub add_tools-AllAsk :
    (own cache : Dict Members) (ts : List Members)
    → AllAsk own cache
    → AllAskOf own (add_tools cache ts)
unfolding add_tools
add_tools-AllAsk own cache [] a = a
add_tools-AllAsk own cache (t ∷ ts) a =
    bind-cases (AllAskOf own) (add_tool cache t) tt λ next e.
      add_tools-AllAsk own next ts (subst (AllAskOf own) e (add_tool-AllAsk own cache t a))
