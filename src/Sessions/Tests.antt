-- ===== src/Sessions/Tests.antt =====
-- Runs of src/ida_multi_mcp/idalib_manager.py on small managers.
use ida_multi_mcp.Prelude.{
  suc, ◌*◌, ◌≡◌, refl, true, false, [], ◌∷◌, none, pos, negsuc, Text, text, text_eq, lookup,
  contains, keys, keep_if, length, ltb, if◌then◌else◌, arith,
}
use ida_multi_mcp.Registry.Schema.{local_host}
use ida_multi_mcp.Registry.Disk.{json, to_root}
use ida_multi_mcp.Health.{World}
use ida_multi_mcp.Samples.{python, plain_hosts, first_id, second_id, two_instances, new_store}
use ida_multi_mcp.Sessions.{
  kill, stops, lingers, Machine, Manager, list_sessions, close_all_sessions, terminate_gracefully,
  ctrl_break, terminate,
}
use ida_multi_mcp.Sessions.Launch.{Launch, child, spawn_session}
use ida_multi_mcp.Sessions.Unregister.{entry}
use ida_multi_mcp.Sessions.Listing.{is_living, is_dead_in, ids_of, list_sessions_lem}
use ida_multi_mcp.Sessions.Closing.{pids_of, values, AllEnded, close_all_sessions_lem}
use ida_multi_mcp.Sessions.Spawning.{Sleeps, Returns, spawn_session-Returns}

-- Process 100 is dead; the others answer pings.
abbrev world : World
world = record {
  is_process_alive = λ p. elim p [ pos n ↦ ltb 100 n | negsuc n ↦ false ];
  ping = λ h p. true;
  read_metadata = λ h p. none;
}

-- Windows; the first signal is ignored.
abbrev machine : Machine
machine = record {
  world = world;
  windows = true;
  exited = λ p. false;
  effect = λ p x. elim x [ ctrl_break ↦ lingers | terminate ↦ lingers | kill ↦ stops ];
  is_truthy = λ t. true;
  basename = λ t. t;
}

abbrev manager : Manager
manager = record {
  store = record new_store { file = json (to_root two_instances) };
  processes = (first_id, 100) ∷ (second_id, 200) ∷ [];
}

all_signals : terminate_gracefully machine 200 ≡ ctrl_break ∷ terminate ∷ kill ∷ []
unfolding terminate_gracefully
all_signals = refl

list_sessions_lem_example :
    let (last, listed) = list_sessions python machine manager in
    (ids_of python machine listed ≡ keys (keep_if (is_living python machine) manager.processes))
    × ((a : Text)
        → (lookup a last.processes ≡ (
            if is_dead_in python machine manager.processes a
            then none
            else lookup a manager.processes))
          × (entry python a last.store ≡ (
              if is_dead_in python machine manager.processes a
              then none
              else entry python a manager.store)))
unfolding lookup text_eq
list_sessions_lem_example = list_sessions_lem python machine manager (refl, (refl, tt)) tt

close_all_sessions_lem_example :
    let (last, count, sent) = close_all_sessions python machine manager in
    ((a : Text)
      → (lookup a last.processes ≡ none)
        × (entry python a last.store
            ≡ (if contains a manager.processes then none else entry python a manager.store)))
    × (count ≡ length manager.processes)
    × (pids_of python machine sent ≡ values python machine manager.processes)
    × AllEnded machine sent
unfolding lookup text_eq
close_all_sessions_lem_example = close_all_sessions_lem python machine manager (refl, (refl, tt)) tt

-- The worker answers at once.
abbrev launch : Launch
launch = record {
  idalib_available = true;
  input_path = text "a";
  resolved_path = text "/tmp/a";
  is_file = true;
  free_port = 13340;
  popen = child 300;
  start = 0;
  timeout = 120000;
  round = λ n. record { time = 600 * n; exited = false; world = world };
  now = 5;
}

launch-Sleeps : Sleeps python machine local_host launch
launch-Sleeps n = omega arith

spawn_session-Returns_example :
    Returns python machine local_host launch manager
      (spawn_session python machine local_host launch manager (suc 240))
spawn_session-Returns_example =
    spawn_session-Returns python machine local_host launch manager 240 plain_hosts (omega arith)
      (omega arith) tt launch-Sleeps (omega arith) (omega arith)
