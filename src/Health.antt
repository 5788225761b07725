-- ===== src/Health.antt =====
-- src/ida_multi_mcp/health.py: liveness of instances, the sweep of dead ones, and rediscovery.
-- Process tables, sockets and the parsing of other programs' listings are parameters.
mod Sweep
mod Tests
use ida_multi_mcp.Prelude.{
  ℕ, zero, suc, ◌+◌, ◌-◌, ◌≤◌, ◌<◌, ◌≡◌, ◌≢◌, ◌==◌, ◌↔◌, ◌⊎◌, refl, sym, ap, ◌∙◌, inl, inr, Bool,
  true, false, not, ◌&&◌, ◌||◌, List, [], ◌∷◌, ◌++◌, Option, none, some, ℤ, pos, negsuc, clip, Text,
  text, text_eq, text_eq_iff, text_eq_refl, text_in, strip, Dict, lookup, contains, insert, erase,
  keys, Distinct, length, drop, keep_if, ltb, leb, is_some, or_default, if◌then◌else◌, Bool-cases,
  Option-cases, arith, lookup-insert, lookup-erase, insert-Distinct, erase-Distinct,
  length-insert-le, length-erase, length-erase-le, length-insert_new, contains-erase_self,
  contains-erase, erase_absent, insert_new, lookup-keep_if, keep_if-Distinct, length-keep_if-le,
  length-append, length-drop,
}
use ida_multi_mcp.Registry.Schema.{
  Python, Value, null, flag, num, str, Info, Data, allowed_hosts, local_host, as_int,
}
use ida_multi_mcp.Registry.Disk.{Store}
use ida_multi_mcp.Registry.Changes.{Metadata, Result, ok, raise}
use ida_multi_mcp.Registry.Api.{list_instances, expire_instance, cleanup_expired, register}

-- The JSON object that an instance returns for ida://idb/metadata.
pub record Answer : Type 0 where
  pub path : Option Value
  pub module_name : Option Value
  pub input_file : Option Value
  pub arch : Option Value

-- What the operating system and the instances answer.
pub record World : Type 0 where
  -- `os.kill(pid, 0)`, or `OpenProcess`
  pub is_process_alive : ℤ → Bool
  -- a POST of "ping": whether the status is 200
  pub ping : Text → ℤ → Bool
  -- a POST of "resources/read", and the object in its first content; `none` on any failure
  pub read_metadata : Text → ℤ → Option Answer

-- `ping_instance`: no connection is made to a host that is not a loopback name.
unfoldable pub ping_instance : World → Text → ℤ → Bool
ping_instance w host port = if text_in host allowed_hosts then w.ping host port else false

-- `query_binary_metadata`
unfoldable pub query_binary_metadata : World → Text → ℤ → Option Answer
query_binary_metadata w host port =
    if text_in host allowed_hosts then w.read_metadata host port else none

-- `check_instance_health`
unfoldable pub check_instance_health : World → ℤ → Text → ℤ → Bool
unfolding ping_instance
check_instance_health w pid host port =
    if w.is_process_alive pid then ping_instance w host port else false

-- `pid is not None and not is_process_alive(pid)`
abbrev pub is_dead : World → Info → Bool
is_dead w info = elim (as_int (or_default info.pid null)) [
  | none ↦ false
  | some p ↦ not (w.is_process_alive p)
]

-- The loop of `cleanup_stale_instances` over the listed instances.
unfoldable pub sweep_dead : Python → World → ℕ → Dict Info → Store → Store × List Text
sweep_dead py w now [] s = (s, [])
sweep_dead py w now ((id, info) ∷ more) s =
    let dead = is_dead w info in
    let s' = (if dead then (expire_instance py s now id (text "process_dead") none).0 else s) in
    let (last, removed) = sweep_dead py w now more s' in
    (last, if dead then id ∷ removed else removed)

-- `cleanup_stale_instances`; the default age of `cleanup_expired` is 3600
unfoldable pub cleanup_stale_instances : Python → World → ℕ → Store → Store × List Text
unfolding sweep_dead
cleanup_stale_instances py w now s =
    let (s', instances) = list_instances py s in
    let (last, removed) = sweep_dead py w now instances s' in
    ((cleanup_expired py last now 3600).0, removed)

-- The set of known (pid, port) pairs, as the list of those of the registered instances.
unfoldable pub known_ports : Dict Info → List (ℤ × ℤ)
known_ports [] = []
known_ports ((id, info) ∷ d) =
    let rest = known_ports d in
    elim info.pid [
      | none ↦ rest
      | some p ↦ elim info.port [
        | none ↦ rest
        | some q ↦ elim (as_int p) [
          | none ↦ rest
          | some pid ↦ elim (as_int q) [ none ↦ rest | some port ↦ (pid, port) ∷ rest ]
        ]
      ]
    ]

-- `==` of integers
abbrev pub int_eq : ℤ → ℤ → Bool
int_eq (pos m) (pos n) = m == n
int_eq (pos m) (negsuc n) = false
int_eq (negsuc m) (pos n) = false
int_eq (negsuc m) (negsuc n) = m == n

-- `(pid, port) in known_ports`
unfoldable pub is_known : ℤ × ℤ → List (ℤ × ℤ) → Bool
is_known c [] = false
is_known c (k ∷ ks) = (int_eq k.0 c.0 && int_eq k.1 c.1) || is_known c ks

-- What is passed to `register` for a server that answered.
abbrev pub discovered : Answer → Metadata
discovered a = record {
  host = some local_host;
  binary_name = some (or_default a.module_name (str (text "unknown")));
  binary_path = some (or_default a.input_file (str []));
  arch = some (or_default a.arch (str (text "unknown")));
  extra = [];
}

-- `metadata.get("path", "")`, which is a text
abbrev pub path_of : Option Value → Text
path_of (some (str t)) = t
path_of _ = []

-- The loop of `_rediscover_instances` over the candidates, with the ids registered so far. An
-- error of `register` ends it.
unfoldable pub discover :
    Python
    → World
    → ℕ
    → List (ℤ × ℤ)
    → List (ℕ × ℕ)
    → List Text
    → Store
    → Store × Result (List Text)
unfolding ping_instance query_binary_metadata is_known
discover py w now known [] done s = (s, ok done)
discover py w now known ((pid, port) ∷ more) done s =
    let skip = discover py w now known more done s in
    if is_known (pos pid, pos port) known
    then skip
    else if ping_instance w local_host (pos port)
    then (elim (query_binary_metadata w local_host (pos port)) [
      | none ↦ skip
      | some a ↦
          let (s', r) = register py s now pid port (path_of a.path) (discovered a) in
          elim r [
            | raise e ↦ (s', raise e)
            | ok id ↦ discover py w now known more (done ++ id ∷ []) s'
          ]
    ])
    else skip

-- `rediscover_instances`: any exception is swallowed, and no id is reported then.
abbrev pub swallow : Store × Result (List Text) → Store × List Text
swallow (s, ok ids) = (s, ids)
swallow (s, raise e) = (s, [])

unfoldable pub rediscover_instances : Python → World → ℕ → List (ℕ × ℕ) → Store → Store × List Text
unfolding known_ports discover
rediscover_instances py w now candidates s =
    let (s', existing) = list_instances py s in
    swallow (discover py w now (known_ports existing) candidates [] s')
