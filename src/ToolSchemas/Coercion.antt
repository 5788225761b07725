-- ===== src/ToolSchemas/Coercion.antt =====
-- Results under the schemas that src/ida_multi_mcp/server.py advertises.
use ida_multi_mcp.Prelude.{
  ◌≡◌, refl, sym, ap, ◌∙◌, true, false, some, text, text_eq, or_default, Option-cases, inl, inr,
}
use ida_multi_mcp.Json.{Json, null, object, Members, member_of, set_member}
use ida_multi_mcp.ToolSchemas.{
  is_true, has_object_type, has_only_result, is_result_wrapper_schema, unwrapped, wrap,
  coerce_structured, is_text,
}
use ida_multi_mcp.ToolSchemas.Building.{advertise, advertise_output, result_object}
use ida_multi_mcp.ToolSchemas.Asks.{member_of-set_member}

-- Under a schema of a wrapper a result is an object with nothing but "result", which has what a
-- schema that is no wrapper gives of it; once it is that, it stays.
pub coerce_structured-wrapper :
    (wrapper raw v : Json)
    → is_result_wrapper_schema wrapper ≡ true
    → is_result_wrapper_schema raw ≡ false
    → (unwrapped (coerce_structured wrapper v) ≡ some (coerce_structured raw v))
      × (coerce_structured wrapper (coerce_structured wrapper v) ≡ coerce_structured wrapper v)
unfolding coerce_structured
coerce_structured-wrapper wrapper raw v w r =
    let boxed : unwrapped (wrap v) ≡ some v = unfold unwrapped text_eq in refl in
    let kept : coerce_structured wrapper (wrap v) ≡ wrap v =
      unfold unwrapped text_eq in rw w refl in
    elim (Option-cases (unwrapped v)) [
      | inl e ↦
          let once : coerce_structured wrapper v ≡ wrap v = rw (w, e) refl in
          (rw (w, r, e) boxed, ap (coerce_structured wrapper) once ∙ kept ∙ sym once)
      | inr (x, e) ↦
          let once : coerce_structured wrapper v ≡ v = rw (w, e) refl in
          let bare : coerce_structured raw v ≡ x = rw (r, e) refl in
          (ap unwrapped once ∙ e ∙ ap some (sym bare), ap (coerce_structured wrapper) once)
    ]

result_object-wrapper : (os : Json) → is_result_wrapper_schema (object (result_object os)) ≡ true
unfolding is_result_wrapper_schema has_object_type has_only_result member_of is_text text_eq
result_object-wrapper os = refl

-- A tool whose own output schema is that of a list or a scalar is advertised with an object, and
-- every result of it, wrapped or not, is returned as an object with nothing but "result".
pub coerce_structured-advertise :
    (s os : Members) (v : Json)
    → member_of (text "outputSchema") s ≡ some (object os)
    → is_true (object os) ≡ true
    → has_object_type os ≡ false
    → (s' : Members) × (advertise s ≡ some s')
      × (unwrapped (coerce_structured (or_default (member_of (text "outputSchema") s') null) v)
          ≡ some (coerce_structured null v))
unfolding advertise advertise_output
coerce_structured-advertise s os v e full untyped =
    let key = text "outputSchema" in
    let shown = object (result_object (object os)) in
    let found : member_of key (set_member key shown s) ≡ some shown =
      unfold text_eq in member_of-set_member key key shown s in
    let raw : is_result_wrapper_schema null ≡ false = unfold is_result_wrapper_schema in refl in
    let both = coerce_structured-wrapper shown null v (result_object-wrapper (object os)) raw in
    (set_member key shown s, rw (e, full, untyped) refl, rw found (both.0))
