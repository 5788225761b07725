-- ===== src/Router/Sending.antt =====
-- What src/ida_multi_mcp/router.py sends over the network, and to whom.
use ida_multi_mcp.Prelude.{
  ℕ, ◌≡◌, ◌⊎◌, refl, ap, inl, inr, Bool, true, false, Option, none, some, Text, text_in, lookup,
  or_default, Bool-cases, Option-cases, arith,
}
use ida_multi_mcp.Registry.Schema.{Python, null, Info, Data, allowed_hosts}
use ida_multi_mcp.Health.{World}
use ida_multi_mcp.Router.{
  Router, Params, Request, Reply, Response, missing_id, available, forward_params, host_of,
  verify_binary_path, send_request, deliver, request_to, route_to, requested_id, only_instance,
  route_request,
}

-- A request goes to the registered address of the instance, on a loopback name, and does not carry
-- the instance id.
abbrev pub Addressed : Text → Params → Info → Request → Type 0
Addressed method params info q =
    (q.host ≡ host_of info)
    × (text_in q.host allowed_hosts ≡ true)
    × (q.port ≡ or_default info.port null)
    × (q.method ≡ method)
    × (q.params ≡ forward_params params)

module _ (py : Python) (w : World) (post : Request → Reply) where
  send_request-sent :
      (info : Info) (method : Text) (params : Params) {q : Request}
      → (send_request post info method (forward_params params)).1 ≡ some q
      → Addressed method params info q
  unfolding send_request
  send_request-sent info method params {q} e =
      elim (Bool-cases (text_in (host_of info) allowed_hosts)) [
        | inl t ↦
            let same : request_to info method (forward_params params) ≡ q = ground arith in
            rw (← same) (refl, t, refl, refl, refl)
        | inr f ↦ absurd (ground arith)
      ]

  deliver-sent :
      (v : Router × Bool) (id : Text) (info : Info) (method : Text) (params : Params) {q : Request}
      → (deliver post v id info method params).2 ≡ some q
      → (v.1 ≡ true) × Addressed method params info q
  unfolding deliver
  deliver-sent (r, true) id info method params e = (refl, send_request-sent info method params e)
  deliver-sent (r, false) id info method params e = cc

  unsent :
      (r : Router) (now : ℕ) (reads : ℕ → Data) (method : Text) (params : Params) (id : Text)
      → lookup id (reads 1).instances ≡ none
      → (route_to py w post r now reads method params id).2 ≡ none
  unfolding route_to
  unsent r now reads method params id gone = elim (Option-cases (lookup id (reads 2).expired)) [
    | inl never ↦ rw (gone, route_to, never)
    | inr (x, was) ↦ rw (gone, route_to, was)
  ]

  pub route_to-found :
      (r : Router) (now : ℕ) (reads : ℕ → Data) (method : Text) (params : Params) (id : Text)
      {info : Info}
      → lookup id (reads 1).instances ≡ some info
      → route_to py w post r now reads method params id
        ≡ deliver post (verify_binary_path py w r now id info) id info method params
  unfolding route_to
  route_to-found r now reads method params id found = rw (found, route_to)

  route_to-sent :
      (r : Router) (now : ℕ) (reads : ℕ → Data) (method : Text) (params : Params) (id : Text)
      {q : Request}
      → (route_to py w post r now reads method params id).2 ≡ some q
      → (info : Info) × (lookup id (reads 1).instances ≡ some info)
        × ((verify_binary_path py w r now id info).1 ≡ true)
        × Addressed method params info q
  route_to-sent r now reads method params id e =
      elim (Option-cases (lookup id (reads 1).instances)) [
        | inl gone ↦ cc (unsent r now reads method params id gone)
        | inr (info, found) ↦
            let d =
              deliver-sent (verify_binary_path py w r now id info) id info method params
                (rw (route_to-found r now reads method params id found) at e) in
            (info, found, d.0, d.1)
      ]

  pub route_request-asked :
      (r : Router) (now : ℕ) (reads : ℕ → Data) (method : Text) (params : Params) {id : Text}
      → requested_id params ≡ some id
      → route_request py w post r now reads method params
        ≡ route_to py w post r now reads method params id
  unfolding route_request
  route_request-asked r now reads method params asked = rw (asked, route_request)

  pub route_request-only :
      (r : Router) (now : ℕ) (reads : ℕ → Data) (method : Text) (params : Params) {id : Text}
      → requested_id params ≡ none
      → only_instance (reads 0).instances ≡ some id
      → route_request py w post r now reads method params
        ≡ route_to py w post r now reads method params id
  unfolding route_request
  route_request-only r now reads method params absent only = rw (absent, route_request, only)

  -- Without an id, and with no instance or several, nothing is sent and nothing changes: the
  -- response lists the instances that can be asked for.
  pub route_request-none :
      (r : Router) (now : ℕ) (reads : ℕ → Data) (method : Text) (params : Params)
      → requested_id params ≡ none
      → only_instance (reads 0).instances ≡ none
      → route_request py w post r now reads method params
        ≡ (r, missing_id (available (reads 0).instances), none)
  unfolding route_request
  route_request-none r now reads method params absent several = rw (absent, route_request, several)

  -- Whatever the registry holds and however it changes meanwhile: a request that goes out goes to
  -- the loopback address under which a registered instance is listed, after that instance's binary
  -- was verified, and carries the method and the parameters less the instance id. The instance is
  -- the one asked for, or the only one.
  pub route_request-sent :
      (r : Router) (now : ℕ) (reads : ℕ → Data) (method : Text) (params : Params) {q : Request}
      → (route_request py w post r now reads method params).2 ≡ some q
      → (id : Text) × (info : Info) × ((requested_id params ≡ some id)
          ⊎ (only_instance (reads 0).instances ≡ some id))
        × (lookup id (reads 1).instances ≡ some info)
        × ((verify_binary_path py w r now id info).1 ≡ true)
        × Addressed method params info q
  route_request-sent r now reads method params {q} e = elim (Option-cases (requested_id params)) [
    | inr (id, asked) ↦
        let (info, found, verified, to) =
          route_to-sent r now reads method params id {q = q}
            (rw (route_request-asked r now reads method params asked) at e) in
        (id, info, inl asked, found, verified, to)
    | inl absent ↦ elim (Option-cases (only_instance (reads 0).instances)) [
      | inr (id, only) ↦
          let (info, found, verified, to) =
            route_to-sent r now reads method params id {q = q}
              (rw (route_request-only r now reads method params absent only) at e) in
          (id, info, inr only, found, verified, to)
      | inl several ↦ cc (
          ap (λ (t : Router × Response × Option Request). t.2)
            (route_request-none r now reads method params absent several))
    ]
  ]
