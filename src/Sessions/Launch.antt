-- ===== src/Sessions/Launch.antt =====
-- `spawn_session` of src/ida_multi_mcp/idalib_manager.py. What a launch observes is a record Launch;
-- times are in milliseconds. Draining of the worker's stderr and its command line are not modelled.
use ida_multi_mcp.Prelude.{
  ℕ, zero, suc, ◌+◌, Bool, true, false, not, List, [], ◌∷◌, Option, none, some, pos, negsuc, Text,
  text, insert, ltb, or_default, if◌then◌else◌,
}
use ida_multi_mcp.Registry.Schema.{Python, Value, null, flag, num, str, other}
use ida_multi_mcp.Registry.Disk.{Store}
use ida_multi_mcp.Registry.Changes.{Metadata, RegisterError, Result, ok, raise}
use ida_multi_mcp.Registry.Api.{register}
use ida_multi_mcp.Health.{World, Answer, ping_instance, query_binary_metadata}
use ida_multi_mcp.Sessions.{
  Machine, Manager, Signal, fails, kill, lingers, stops, terminate, with_store,
}

-- A round of `_wait_for_ready`: the clock in its condition, whether the process has exited, and who
-- answers at that time.
pub record Round : Type 0 where
  pub time : ℕ
  pub exited : Bool
  pub world : World

-- `subprocess.Popen`: a `FileNotFoundError`, another exception, or a process id.
pub data Popen : Type 0 where
  no_python : Popen
  failed : Text → Popen
  child : ℕ → Popen

-- What `spawn_session` observes, in order.
pub record Launch : Type 0 where
  pub idalib_available : Bool
  pub input_path : Text
  -- `os.path.realpath` and `os.path.isfile`
  pub resolved_path : Text
  pub is_file : Bool
  pub free_port : ℕ
  pub popen : Popen
  -- `time.monotonic()` before the loop, the timeout, and the rounds
  pub start : ℕ
  pub timeout : ℕ
  pub round : ℕ → Round
  -- the clock of the registration
  pub now : ℕ

-- The dicts that `spawn_session` returns, or the exception of `register`.
pub data Spawned : Type 0 where
  not_available no_executable : Spawned
  no_file spawn_error : Text → Spawned
  not_ready : ℕ → Spawned
  spawned : Text → Text → ℕ → ℕ → Value → Spawned
  raises : RegisterError → Spawned

-- `_wait_for_ready` from its n-th round; `none` if the fuel does not reach its end.
unfoldable pub wait_for_ready : Text → ℕ → Launch → ℕ → ℕ → Option Bool
unfolding ping_instance
wait_for_ready host port l zero n = none
wait_for_ready host port l (suc fuel) n =
    let rest = wait_for_ready host port l fuel (suc n) in
    let r = l.round n in
    if ltb r.time (l.start + l.timeout)
    then if r.exited
      then some false
      else if ping_instance r.world host (pos port)
      then some true
      else rest
    else some false

module _ (m : Machine) where
  -- The truth value of a JSON value.
  abbrev pub truthy : Value → Bool
  truthy null = false
  truthy (flag b) = b
  truthy (num (pos zero)) = false
  truthy (num (pos (suc n))) = true
  truthy (num (negsuc n)) = true
  truthy (str []) = false
  truthy (str (c ∷ cs)) = true
  truthy (other t) = m.is_truthy t

  -- `module_name or os.path.basename(resolved_path)`
  abbrev pub name_or : Value → Text → Value
  name_or v path = if truthy v then v else str (m.basename path)

  abbrev pub module_of : Option Answer → Value
  module_of none = null
  module_of (some a) = or_default a.module_name null

  -- `proc.terminate(); proc.wait(timeout=5)`, and `proc.kill()` if that raises
  abbrev pub give_up : ℕ → List Signal
  give_up pid = elim (m.effect pid terminate) [
    | stops ↦ terminate ∷ []
    | lingers ↦ terminate ∷ kill ∷ []
    | fails ↦ terminate ∷ kill ∷ []
  ]

-- The keyword arguments that `spawn_session` hands to `register`.
abbrev pub worker_metadata : Text → Value → Text → Metadata
worker_metadata host name path = record {
  host = some host;
  binary_name = some name;
  binary_path = some (str path);
  arch = none;
  extra = (text "type", str (text "idalib")) ∷ [];
}

module _ (py : Python) (m : Machine) (host : Text) (l : Launch) where
  abbrev pub binary_name : Value
  unfolding query_binary_metadata
  binary_name =
      name_or m (module_of m (query_binary_metadata m.world host (pos l.free_port))) l.resolved_path

  -- The end of `spawn_session`, by what `register` returned.
  abbrev pub keep_session : Manager → ℕ → Value → Store × Result Text → Manager × Spawned
  keep_session mg pid name (s, ok id) = (
    record { store = s; processes = insert id pid mg.processes },
    spawned id host l.free_port pid name,
  )
  keep_session mg pid name (s, raise e) = (with_store mg s, raises e)

  -- What follows the wait for the worker.
  abbrev pub after_wait : Manager → ℕ → Option Bool → Option (Manager × Spawned × List Signal)
  after_wait mg pid none = none
  after_wait mg pid (some false) = some (mg, not_ready l.timeout, give_up m pid)
  after_wait mg pid (some true) =
      let (mg', r) = keep_session mg pid binary_name (
        register py mg.store l.now pid l.free_port l.resolved_path
          (worker_metadata host binary_name l.resolved_path)) in
      some (mg', r, [])

  -- `spawn_session`, with the signals sent to the child.
  unfoldable pub spawn_session : Manager → ℕ → Option (Manager × Spawned × List Signal)
  unfolding wait_for_ready
  spawn_session mg fuel =
      if not l.idalib_available
      then some (mg, not_available, [])
      else if not l.is_file
      then some (mg, no_file l.input_path, [])
      else elim l.popen [
        | no_python ↦ some (mg, no_executable, [])
        | failed e ↦ some (mg, spawn_error e, [])
        | child pid ↦ after_wait mg pid (wait_for_ready host l.free_port l fuel 0)
      ]
