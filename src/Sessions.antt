-- ===== src/Sessions.antt =====
-- src/ida_multi_mcp/idalib_manager.py: the headless worker processes that this server starts. The
-- operating system and the workers' answers are a record Machine. The hook at the interpreter's exit
-- is not modelled. The start of a worker is in Launch.
mod Launch
mod Unregister
mod Listing
mod Closing
mod Readiness
mod Spawning
mod Tests
use ida_multi_mcp.Prelude.{
  ℕ, zero, suc, ◌+◌, Bool, true, false, not, List, [], ◌∷◌, ◌++◌, Option, none, some, ℤ, pos,
  negsuc, Text, text, Dict, lookup, insert, erase, keys, length, ltb, text_eq, or_default,
  if◌then◌else◌,
}
use ida_multi_mcp.Registry.Schema.{Python, Value, null, flag, num, str, other, Info, local_host}
use ida_multi_mcp.Registry.Disk.{Store}
use ida_multi_mcp.Registry.Changes.{Metadata, RegisterError, Result, ok, raise}
use ida_multi_mcp.Registry.Api.{register, unregister, get_instance}
use ida_multi_mcp.Health.{World, Answer, ping_instance, query_binary_metadata, path_of}
use ida_multi_mcp.Router.{port_of, host_of}

pub data Signal : Type 0 where
  ctrl_break terminate kill : Signal

-- What comes of a signal and of the wait behind it.
pub data Effect : Type 0 where
  stops lingers fails : Effect

pub record Machine : Type 0 where
  pub world : World
  pub windows : Bool
  -- `proc.poll() is not None`
  pub exited : ℕ → Bool
  pub effect : ℕ → Signal → Effect
  -- the truth value of a float, an array or an object, given as its text
  pub is_truthy : Text → Bool
  pub basename : Text → Text

-- `IdalibManager`: its registry, and `_processes` with the process id of each worker
pub record Manager : Type 0 where
  pub store : Store
  pub processes : Dict ℕ

abbrev pub with_store : Manager → Store → Manager
with_store mg s = record mg { store = s }

-- `del self._processes[id]; self.registry.unregister(id)`
unfoldable pub forget : Python → Manager → Text → Manager
forget py mg id = record {
  store = (unregister py mg.store id).0;
  processes = erase id mg.processes;
}

module _ (m : Machine) where
  -- The signals of the steps 2 and 3 of `_terminate_gracefully`.
  abbrev pub forced : ℕ → Bool → List Signal
  forced pid false = kill ∷ []
  forced pid true = elim (m.effect pid terminate) [
    | stops ↦ terminate ∷ []
    | lingers ↦ terminate ∷ kill ∷ []
    | fails ↦ terminate ∷ kill ∷ []
  ]

  -- `_terminate_gracefully`: the signals that it sends, in order
  unfoldable pub terminate_gracefully : ℕ → List Signal
  terminate_gracefully pid =
      let first = (if m.windows then ctrl_break else terminate) in
      if m.exited pid then [] else elim (m.effect pid first) [
        | stops ↦ first ∷ []
        | lingers ↦ first ∷ forced pid m.windows
        | fails ↦ first ∷ forced pid m.windows
      ]

-- An element of `list_sessions`.
pub record Session : Type 0 where
  pub instance_id : Text
  pub pid : ℕ
  pub host : Value
  pub port : Value
  pub binary_name : Value
  pub binary_path : Value

-- `info.get(...) if info else ...`, of an entry that is a non-empty dict if it is there
abbrev pub session : Text → ℕ → Option Info → Session
session id pid none = record {
  instance_id = id;
  pid = pid;
  host = str local_host;
  port = num (pos 0);
  binary_name = str (text "unknown");
  binary_path = str [];
}
session id pid (some info) = record {
  instance_id = id;
  pid = pid;
  host = or_default info.host (str local_host);
  port = or_default info.port (num (pos 0));
  binary_name = or_default info.binary_name (str (text "unknown"));
  binary_path = or_default info.binary_path (str []);
}

-- What `get_status` returns.
pub data Status : Type 0 where
  unmanaged dead : Text → Status
  alive : Text → ℕ → Bool → Value → Status

pub data Closed : Type 0 where
  closed orphan_removed not_managed : Closed

-- `info is not None and info.get("type") == "idalib"`
unfoldable pub is_idalib : Option Info → Bool
unfolding lookup
is_idalib none = false
is_idalib (some info) = elim (lookup (text "type") info.extra) [
  | some (str t) ↦ text_eq t (text "idalib")
  | some v ↦ false
  | none ↦ false
]

module _ (py : Python) (m : Machine) where
  -- `close_session`: the signals sent to the worker, with its process id
  unfoldable pub close_session : Manager → Text → Manager × Closed × List (ℕ × List Signal)
  close_session mg id = elim (lookup id mg.processes) [
    | some pid ↦ (forget py mg id, closed, (pid, terminate_gracefully m pid) ∷ [])
    | none ↦
        let (s, info) = get_instance py mg.store id in
        if is_idalib info
        then (with_store mg (unregister py s id).0, orphan_removed, [])
        else (with_store mg s, not_managed, [])
  ]

  -- The loop of `close_all_sessions`.
  unfoldable pub close_each : List Text → Manager → Manager × List (ℕ × List Signal)
  close_each [] mg = (mg, [])
  close_each (id ∷ ids) mg =
      let (mg', _, sent) = close_session mg id in
      let (last, rest) = close_each ids mg' in (last, sent ++ rest)

  unfoldable pub close_all_sessions : Manager → Manager × ℕ × List (ℕ × List Signal)
  close_all_sessions mg =
      let ids = keys mg.processes in
      let (last, sent) = close_each ids mg in (last, length ids, sent)

  -- The loop of `list_sessions` over a copy of the processes.
  unfoldable pub list_each : Dict ℕ → Manager → Manager × List Session
  list_each [] mg = (mg, [])
  list_each ((id, pid) ∷ more) mg =
      let (s, info) = get_instance py mg.store id in
      let living = m.world.is_process_alive (pos pid) in
      let mg' = (if living then with_store mg s else forget py (with_store mg s) id) in
      let (last, listed) = list_each more mg' in
      (last, if living then session id pid info ∷ listed else listed)

  unfoldable pub list_sessions : Manager → Manager × List Session
  list_sessions mg = list_each mg.processes mg

  -- The ping of `get_status`.
  abbrev pub reachable : Option Info → Bool
  reachable none = ping_instance m.world local_host (pos 0)
  reachable (some info) = ping_instance m.world (host_of info) (port_of info)

  unfoldable pub get_status : Manager → Text → Manager × Status
  get_status mg id = elim (lookup id mg.processes) [
    | none ↦ (mg, unmanaged id)
    | some pid ↦
        let (s, info) = get_instance py mg.store id in
        if m.world.is_process_alive (pos pid)
        then (with_store mg s, alive id pid (reachable info) (session id pid info).binary_name)
        else (forget py (with_store mg s) id, dead id)
  ]
