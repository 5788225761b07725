-- ===== src/Router/Verdicts.antt =====
-- The check of the binary in src/ida_multi_mcp/router.py, and its five-second cache.
use ida_multi_mcp.Prelude.{
  ℕ, ◌+◌, ◌≤◌, ◌<◌, ◌≡◌, refl, ◌∙◌, inl, inr, false, Option, none, some, Text, text_eq_refl, lookup,
  insert, ltb, lt→ltb, or_default, Option-cases, arith, lookup-insert,
}
use ida_multi_mcp.Registry.Schema.{Python, null, Info, Data}
use ida_multi_mcp.Health.{World}
use ida_multi_mcp.Router.Names.{normalize_binary_name}
use ida_multi_mcp.Router.{
  Router, Params, Request, Reply, binary_changed, name_eq, current_name, matches,
  verify_binary_path, deliver, route_to,
}
use ida_multi_mcp.Router.Sending.{route_to-found}

-- No verdict on the instance is young enough to be used.
abbrev pub NoVerdict : Router → ℕ → Text → Type 0
NoVerdict r now id =
    (name : Option Text) (time : ℕ)
    → lookup id r.binary_path_cache ≡ some (name, time)
    → time + r.cache_timeout ≤ now

ge→ltb : {a b : ℕ} → b ≤ a → ltb a b ≡ false
ge→ltb {a} {b} h = ground arith

module _ (py : Python) (w : World) where
  verify_hit :
      (r : Router) (now : ℕ) (id : Text) (info : Info) {name : Option Text} {time : ℕ}
      → lookup id r.binary_path_cache ≡ some (name, time)
      → now < time + r.cache_timeout
      → verify_binary_path py w r now id info ≡ (r, matches py name info)
  unfolding verify_binary_path
  verify_hit r now id info {name} {time} hit young =
      rw (hit, verify_binary_path, lt→ltb now (time + r.cache_timeout) young)

  verify_miss :
      (r : Router) (now : ℕ) (id : Text) (info : Info)
      → NoVerdict r now id
      → verify_binary_path py w r now id info ≡ (
        record r {
          binary_path_cache = insert id (current_name py w info, now) r.binary_path_cache;
        },
        matches py (current_name py w info) info,
      )
  unfolding verify_binary_path
  verify_miss r now id info stale = elim (Option-cases (lookup id r.binary_path_cache)) [
    | inl e ↦ rw (e, verify_binary_path)
    | inr ((name, time), e) ↦
        let late : ltb now (time + r.cache_timeout) ≡ false = ge→ltb (stale name time e) in
        rw (e, verify_binary_path, late)
  ]

module _ (py : Python) (w : World) where
  -- A verdict holds for the cache's timeout: a second check of the same instance within it gives
  -- the same verdict, changes nothing, and does not ask the instance again, whatever it would say
  -- by then.
  pub verify_binary_path-cached :
      (r : Router) (now later : ℕ) (id : Text) (info : Info) (w' : World)
      → NoVerdict r now id
      → later < now + r.cache_timeout
      → let (r', verdict) = verify_binary_path py w r now id info in
        verify_binary_path py w' r' later id info ≡ (r', verdict)
  verify_binary_path-cached r now later id info w' stale soon =
      let r' = (verify_binary_path py w r now id info).0 in
      let miss = verify_miss py w r now id info stale in
      let name = current_name py w info in
      let stored : lookup id
            (record r {
              binary_path_cache = insert id (name, now) r.binary_path_cache;
            }).binary_path_cache
          ≡ some (name, now) =
        lookup-insert id id (name, now) r.binary_path_cache ∙ rw (text_eq_refl id) in
      rw miss (
        verify_hit py w'
          (record r { binary_path_cache = insert id (name, now) r.binary_path_cache }) later id info
          stored soon)

module _ (py : Python) (w : World) (post : Request → Reply) where
  -- If the instance reports a module of another name than the registered one, and no younger
  -- verdict is cached, the request is refused and nothing is sent.
  pub route_to-changed :
      (r : Router) (now : ℕ) (reads : ℕ → Data) (method : Text) (params : Params) (id : Text)
      {info : Info} {name : Text}
      → lookup id (reads 1).instances ≡ some info
      → NoVerdict r now id
      → current_name py w info ≡ some name
      → name_eq (some name) (normalize_binary_name py (or_default info.binary_name null)) ≡ false
      → let (r', response, sent) = route_to py w post r now reads method params id in
        (response ≡ binary_changed id) × (sent ≡ none)
  unfolding deliver
  route_to-changed r now reads method params id {info} {name} found stale reported differs =
      rw
        (
          route_to-found py w post r now reads method params id found,
          verify_miss py w r now id info stale,
          reported,
          differs,
        )
        (refl, refl)
