-- ===== src/Router/Tests.antt =====
-- Runs of src/ida_multi_mcp/router.py on small registries.
use ida_multi_mcp.Prelude.{
  ℕ, ◌≡◌, ◌⊎◌, refl, true, false, [], none, some, pos, Text, text, text_eq, text_in, lookup, insert,
  or_default, arith,
}
use ida_multi_mcp.Registry.Schema.{null, num, str, Info, Data, local_host}
use ida_multi_mcp.Health.{World, query_binary_metadata}
use ida_multi_mcp.Router.Names.{normalize_binary_name}
use ida_multi_mcp.Router.{
  Router, Params, Request, Reply, with_result, binary_changed, available, value_eq, replacements,
  reason_of, handle_expired_instance, handle_missing_instance, name_eq, current_name,
  verify_binary_path, send_request, deliver, route_to, requested_id, only_instance, route_request,
}
use ida_multi_mcp.Samples.{python, first_id, second_id, first_info, second_info, two_instances}
use ida_multi_mcp.Router.Sending.{Addressed, route_request-sent}
use ida_multi_mcp.Router.Verdicts.{NoVerdict, verify_binary_path-cached, route_to-changed}

program : Unit {0}
unfolding available value_eq replacements reason_of handle_expired_instance handle_missing_instance
    name_eq query_binary_metadata current_name verify_binary_path send_request deliver route_to
    route_request normalize_binary_name lookup insert text_eq text_in
program = tt

-- An instance that reports the module that it was registered with, in another folder.
abbrev world : World
world = record {
  is_process_alive = λ p. true;
  ping = λ h p. true;
  read_metadata = λ h p. some (record {
    path = none;
    module_name = some (str (text "C:\\x\\a.exe "));
    input_file = none;
    arch = none;
  });
}

abbrev post : Request → Reply
post q = with_result (text "{}")

abbrev router : Router
router = record { binary_path_cache = []; cache_timeout = 5 }

abbrev call : Params
call = record { arguments = some (record { instance_id = some first_id; rest = [] }); others = [] }

abbrev anonymous : Params
anonymous = record { arguments = some (record { instance_id = none; rest = [] }); others = [] }

abbrev still : ℕ → Data
still n = two_instances

abbrev sent_request : Request
sent_request = record {
  host = local_host;
  port = num (pos 13337);
  method = text "tools/call";
  params = anonymous;
}

delivered :
    (route_request python world post router 3 still (text "tools/call") call).2 ≡ some sent_request
unfolding program
delivered = refl

route_request-sent_example :
    (id : Text) × (info : Info) × ((requested_id call ≡ some id)
      ⊎ (only_instance two_instances.instances ≡ some id))
    × (lookup id two_instances.instances ≡ some info)
    × ((verify_binary_path python world router 3 id info).1 ≡ true)
    × Addressed (text "tools/call") call info sent_request
route_request-sent_example =
    route_request-sent python world post router 3 still (text "tools/call") call delivered

unverified : (id : Text) → NoVerdict router 3 id
unfolding lookup
unverified id name time e = cc

verify_binary_path-cached_example :
    let (r', verdict) = verify_binary_path python world router 3 first_id first_info in
    verify_binary_path python
      (record world { read_metadata = λ h p. none })
      r'
      7
      first_id
      first_info
    ≡ (r', verdict)
verify_binary_path-cached_example =
    verify_binary_path-cached python world router 3 7 first_id first_info
      (record world { read_metadata = λ h p. none }) (unverified first_id) (omega arith)

found : lookup second_id two_instances.instances ≡ some second_info
unfolding program
found = refl

reported : current_name python world second_info ≡ some (text "a.exe")
unfolding program
reported = refl

differs :
    name_eq
      (some (text "a.exe"))
      (normalize_binary_name python (or_default second_info.binary_name null))
    ≡ false
unfolding program
differs = refl

route_to-changed_example :
    let (r', response, sent) =
      route_to python world post router 3 still (text "tools/call") call second_id in
    (response ≡ binary_changed second_id) × (sent ≡ none)
route_to-changed_example =
    route_to-changed python world post router 3 still (text "tools/call") call second_id found
      (unverified second_id) reported differs
