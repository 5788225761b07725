-- ===== src/Router.antt =====
-- src/ida_multi_mcp/router.py: routing of tool requests to the instances.
-- Registry reads are separate snapshots: the n-th one of a request is `reads n`, so that other
-- processes may change the registry between them. HTTP is a parameter.
pub mod Names
mod Sending
mod Verdicts
mod Tests
use ida_multi_mcp.Prelude.{
  ℕ, zero, suc, ◌+◌, ◌-◌, ◌≤◌, ◌<◌, ◌≡◌, ◌≢◌, ◌==◌, ◌↔◌, ◌⊎◌, refl, sym, ap, ◌∙◌, inl, inr, Bool,
  true, false, not, ◌&&◌, ◌||◌, List, [], ◌∷◌, ◌++◌, Option, none, some, ℤ, pos, negsuc, clip, Text,
  text, text_eq, text_eq_iff, text_eq_refl, text_in, strip, Dict, lookup, contains, insert, erase,
  keys, Distinct, length, drop, keep_if, ltb, leb, is_some, or_default, if◌then◌else◌, Bool-cases,
  Option-cases, arith, lookup-insert, lookup-erase, insert-Distinct, erase-Distinct,
  length-insert-le, length-erase, length-erase-le, length-insert_new, contains-erase_self,
  contains-erase, erase_absent, insert_new, lookup-keep_if, keep_if-Distinct, length-keep_if-le,
  length-append, length-drop,
}
use ida_multi_mcp.Registry.Schema.{
  Python, Value, null, flag, num, str, other, Info, Expired, Data, allowed_hosts, local_host,
  as_int,
}
use ida_multi_mcp.Health.{World, Answer, query_binary_metadata}
use ida_multi_mcp.Router.Names.{normalize_binary_name}

-- `_binary_path_cache`: the normalised name and the time of the query
pub record Router : Type 0 where
  pub binary_path_cache : Dict (Option Text × ℕ)
  pub cache_timeout : ℕ

-- The "arguments" of a request, and its other parameters.
pub record Arguments : Type 0 where
  pub instance_id : Option Text
  pub rest : Dict Value

pub record Params : Type 0 where
  pub arguments : Option Arguments
  pub others : Dict Value

-- A request that goes out over HTTP.
pub record Request : Type 0 where
  pub host : Text
  pub port : Value
  pub method : Text
  pub params : Params

-- The body that comes back: the text of its "result", of its "error", or of the whole object if it
-- has neither; or the type of an exception.
pub data Reply : Type 0 where
  with_result with_error with_neither exception : Text → Reply

-- The dicts that `route_request` returns.
pub data Response : Type 0 where
  result error_object whole : Text → Response
  -- "only localhost instances allowed"
  refused : Response
  -- "Failed to connect to instance"
  failed : Text → Response
  -- "Missing required parameter 'instance_id'", with the id and the binary name of each instance
  missing_id : List (Text × Value) → Response
  -- "Instance not found"
  not_found : Text → List (Text × Value) → Response
  -- "binary path changed"
  binary_changed : Text → Response
  -- "expired", with the reason, the replacements, and the one that the hint names
  replaced : Text → Option Value → Value → List (Text × Option Value) → Text → Response
  expired_only : Text → Value → List Text → Response

-- `{"id": id, "binary_name": info.get("binary_name", "unknown")}` for each instance
unfoldable pub available : Dict Info → List (Text × Value)
available [] = []
available ((id, info) ∷ d) = (id, or_default info.binary_name (str (text "unknown"))) ∷ available d

-- `==` on values
abbrev pub bool_eq : Bool → Bool → Bool
bool_eq true b = b
bool_eq false b = not b

abbrev pub int_eq : ℤ → ℤ → Bool
int_eq (pos m) (pos n) = m == n
int_eq (negsuc m) (negsuc n) = m == n
int_eq _ _ = false

-- `True == 1` holds, as it does for `isinstance(True, int)`.
unfoldable pub value_eq : Value → Value → Bool
unfolding text_eq
value_eq (str a) (str b) = text_eq a b
value_eq (other a) (other b) = text_eq a b
value_eq null null = true
value_eq a b = elim (as_int a) [
  | none ↦ false
  | some x ↦ elim (as_int b) [ none ↦ false | some y ↦ int_eq x y ]
]

-- `info.get("binary_name") == binary_name`; what is absent reads as null
abbrev pub same_name : Option Value → Value → Bool
same_name o v = value_eq (or_default o null) v

-- The comprehension of `_handle_expired_instance`.
unfoldable pub replacements : Value → Dict Info → List (Text × Option Value)
unfolding value_eq
replacements name [] = []
replacements name ((id, info) ∷ d) =
    let rest = replacements name d in
    if same_name info.binary_name name then (id, info.binary_name) ∷ rest else rest

-- `expired_info.get("reason", expired_info.get("expire_reason", "unknown"))`
unfoldable pub reason_of : Expired → Value
unfolding lookup text_eq
reason_of e =
    or_default e.reason (or_default (lookup (text "expire_reason") e.extra) (str (text "unknown")))

unfoldable pub handle_expired_instance : Text → Expired → Data → Response
unfolding replacements reason_of
handle_expired_instance id e d =
    elim (replacements (or_default e.binary_name (str [])) d.instances) [
      | [] ↦ expired_only id (reason_of e) (keys d.instances)
      | r ∷ rs ↦ replaced id e.expired_at (reason_of e) (r ∷ rs) r.0
    ]

unfoldable pub handle_missing_instance : Text → Data → Response
unfolding available
handle_missing_instance id d = not_found id (available d.instances)

-- `forward_params`
abbrev pub forward_params : Params → Params
forward_params p = record p {
  arguments = elim p.arguments [ none ↦ none | some a ↦ some (record a { instance_id = none }) ];
}

-- `==` on the results of `_normalize_binary_name`
unfoldable pub name_eq : Option Text → Option Text → Bool
unfolding text_eq
name_eq none none = true
name_eq none (some b) = false
name_eq (some a) none = false
name_eq (some a) (some b) = text_eq a b

-- The host under which an instance is registered; a value that is no text is in no set of hosts.
abbrev pub host_of : Info → Text
host_of info = elim (or_default info.host (str local_host)) [ str h ↦ h | _ ↦ [] ]

abbrev pub port_of : Info → ℤ
port_of info = or_default (as_int (or_default info.port null)) (pos 0)

-- `params.get("arguments", {}).get("instance_id")`; an empty text counts as missing
abbrev pub requested_id : Params → Option Text
requested_id p = elim p.arguments [
  | none ↦ none
  | some a ↦ elim a.instance_id [ none ↦ none | some [] ↦ none | some (c ∷ cs) ↦ some (c ∷ cs) ]
]

-- The choice where no id was given: the only instance, if there is exactly one.
abbrev pub only_instance : Dict Info → Option Text
only_instance [] = none
only_instance ((id, info) ∷ []) = some id
only_instance _ = none

-- The request that `_send_request` makes.
abbrev pub request_to : Info → Text → Params → Request
request_to info method params = record {
  host = host_of info;
  port = or_default info.port null;
  method = method;
  params = params;
}

-- The answer of `_send_request` to what came back.
abbrev pub respond : Reply → Response
respond (with_result t) = result t
respond (with_error t) = error_object t
respond (with_neither t) = whole t
respond (exception t) = failed t

module _ (py : Python) where
  -- The comparison, with the benefit of the doubt where no name is known.
  abbrev pub matches : Option Text → Info → Bool
  matches none info = true
  matches (some n) info =
      name_eq (some n) (normalize_binary_name py (or_default info.binary_name null))

module _ (py : Python) (w : World) where
  -- The query of `_verify_binary_path`: the normalised module name, if there is one.
  unfoldable pub current_name : Info → Option Text
  unfolding query_binary_metadata normalize_binary_name
  current_name info = elim (query_binary_metadata w (host_of info) (port_of info)) [
    | none ↦ none
    | some a ↦ normalize_binary_name py (or_default a.module_name null)
  ]

  -- `_verify_binary_path`, at time `now`
  unfoldable pub verify_binary_path : Router → ℕ → Text → Info → Router × Bool
  unfolding current_name name_eq
  verify_binary_path r now id info =
      let name = current_name info in
      let queried : Router × Bool = (
        record r { binary_path_cache = insert id (name, now) r.binary_path_cache },
        matches py name info,
      ) in
      elim (lookup id r.binary_path_cache) [
        | none ↦ queried
        | some (cached_name, cached_time) ↦
            if ltb now (cached_time + r.cache_timeout)
            then (r, matches py cached_name info)
            else queried
      ]

module _ (post : Request → Reply) where
  -- `_send_request`: the response, and the request if one went out
  unfoldable pub send_request : Info → Text → Params → Response × Option Request
  send_request info method params =
      if text_in (host_of info) allowed_hosts
      then (respond (post (request_to info method params)), some (request_to info method params))
      else (refused, none)

  -- What follows the verification of the binary path.
  unfoldable pub deliver :
      Router × Bool → Text → Info → Text → Params → Router × Response × Option Request
  deliver (r, true) id info method params =
      let (response, sent) = send_request info method (forward_params params) in (r, response, sent)
  deliver (r, false) id info method params = (r, binary_changed id, none)

module _ (py : Python) (w : World) (post : Request → Reply) where
  -- The part of `route_request` behind the choice of the instance.
  unfoldable pub route_to :
      Router → ℕ → (ℕ → Data) → Text → Params → Text → Router × Response × Option Request
  route_to r now reads method params id = elim (lookup id (reads 1).instances) [
    | none ↦ elim (lookup id (reads 2).expired) [
      | none ↦ (r, handle_missing_instance id (reads 3), none)
      | some e ↦ (r, handle_expired_instance id e (reads 3), none)
    ]
    | some info ↦ deliver post (verify_binary_path py w r now id info) id info method params
  ]

  unfoldable pub route_request :
      Router → ℕ → (ℕ → Data) → Text → Params → Router × Response × Option Request
  route_request r now reads method params = elim (requested_id params) [
    | some id ↦ route_to r now reads method params id
    | none ↦ elim (only_instance (reads 0).instances) [
      | some id ↦ route_to r now reads method params id
      | none ↦ (r, missing_id (available (reads 0).instances), none)
    ]
  ]
