-- ===== src/Aggregator.antt =====
-- src/ida_multi_mcp/http_aggregator.py: the HTTP aggregator that every IDA process tries to start.
-- What a call observes (environment variables, probes of the port, the lock, the file system, the
-- child process, the clock) is an argument; times are in milliseconds.
mod Answers
mod Single
mod Waiting
mod Tests
use ida_multi_mcp.Prelude.{
  ℕ, zero, suc, ◌+◌, Bool, true, false, not, ◌&&◌, ◌||◌, List, [], ◌∷◌, ◌++◌, Option, none, some, ℤ,
  pos, negsuc, Text, text, text_eq, text_in, strip, leb, ltb, ◌==◌, or_default, if◌then◌else◌,
}
use ida_multi_mcp.Registry.Schema.{Python, local_host}

abbrev pub default_host : Text
default_host = text "0.0.0.0"

abbrev pub default_port : ℕ
default_port = 8745

abbrev pub wildcard_binds : List Text
wildcard_binds = text "0.0.0.0" ∷ text "::" ∷ [] ∷ []

abbrev pub disable_values : List Text
disable_values = text "0" ∷ text "false" ∷ text "off" ∷ text "no" ∷ []

-- The environment variables IDA_MCP_HTTP, IDA_MCP_HTTP_HOST and IDA_MCP_HTTP_PORT, and `int` and
-- `str` of Python.
pub record Environment : Type 0 where
  pub http : Option Text
  pub http_host : Option Text
  pub http_port : Option Text
  pub int_of : Text → Option ℤ
  pub str_of : ℕ → Text

module _ (py : Python) (env : Environment) where
  unfoldable pub http_auto_enabled : Bool
  unfolding strip text_in
  http_auto_enabled =
      not (text_in (py.lower (strip py.is_space (or_default env.http (text "1")))) disable_values)

  -- `a or b` on texts
  abbrev pub text_or : Text → Text → Text
  text_or [] b = b
  text_or (c ∷ cs) b = c ∷ cs

  unfoldable pub http_bind_host : Text
  unfolding strip
  http_bind_host = text_or (strip py.is_space (or_default env.http_host default_host)) default_host

  -- The test of `http_bind_port` on what `int` returned.
  abbrev pub port_or_default : Option ℤ → ℕ
  port_or_default none = default_port
  port_or_default (some (negsuc n)) = default_port
  port_or_default (some (pos n)) = if leb 1 n && leb n 65535 then n else default_port

  unfoldable pub http_bind_port : ℕ
  unfolding strip
  http_bind_port = elim (strip py.is_space (or_default env.http_port [])) [
    | [] ↦ default_port
    | c ∷ cs ↦ port_or_default (env.int_of (c ∷ cs))
  ]

unfoldable pub probe_host : Text → Text
unfolding text_in
probe_host bind_host = if text_in bind_host wildcard_binds then local_host else bind_host

-- `":" in host`
unfoldable pub has_colon : Text → Bool
has_colon [] = false
has_colon (c ∷ cs) = c == b':' || has_colon cs

-- `host.startswith("[")`
abbrev pub has_bracket : Text → Bool
has_bracket [] = false
has_bracket (c ∷ cs) = c == b'['

-- `advertised_http_url` of server.py; `lan` is what `_guess_lan_ipv4` finds.
unfoldable pub advertised_http_url : Environment → Option Text → Text → ℕ → Text
unfolding text_in has_colon
advertised_http_url env lan bind_host port =
    let host =
      (if text_in bind_host wildcard_binds then or_default lan local_host else bind_host) in
    let host' =
      (if has_colon host && not (has_bracket host) then text "[" ++ host ++ text "]" else host) in
    text "http://" ++ host' ++ text ":" ++ env.str_of port ++ text "/mcp"

-- `_spawn_cmd`
unfoldable pub spawn_cmd : Environment → Text → Text → ℕ → List Text
spawn_cmd env python host port =
    python
    ∷ text "-m"
    ∷ text "ida_multi_mcp"
    ∷ text "--http"
    ∷ text "--host"
    ∷ host
    ∷ text "--port"
    ∷ env.str_of port
    ∷ []

pub data Action : Type 0 where
  disabled already_running started spawn_failed lock_timeout : Action

-- The texts of the field `error`; those of exceptions are passed on.
pub data Failure : Type 0 where
  switched_off : Failure
  exception : Text → Failure
  exited : Failure
  did_not_listen : Failure

-- `EnsureResult`
pub record EnsureResult : Type 0 where
  pub action : Action
  pub host : Text
  pub port : ℕ
  pub pid : Option ℕ
  pub url : Option Text
  pub error : Option Failure

-- A round of the waiting loop: the clock in its condition, the probe, whether the child has exited,
-- and the second probe, made if it has.
pub record Round : Type 0 where
  pub time : ℕ
  pub listening : Bool
  pub exited : Bool
  pub listening_after : Bool

-- What a call of `ensure_http_aggregator` observes, in the order of the observations.
pub record Seen : Type 0 where
  pub listening : Bool
  -- the error of a `FileLock` that timed out, and the probe made after it
  pub lock_error : Option Text
  pub listening_unlocked : Bool
  -- the probe under the lock
  pub listening_locked : Bool
  pub log_error : Option Text
  -- `popen`: the child's process id, or the text of an exception
  pub popen_error : Option Text
  pub child : ℕ
  -- the clock when the deadline is set, the rounds, and the probe behind the loop
  pub start : ℕ
  pub ready_timeout : ℕ
  pub round : ℕ → Round
  pub listening_last : Bool

module _ (env : Environment) (lan : Option Text) (host : Text) (port : ℕ) where
  -- An `EnsureResult` with a url and no error.
  abbrev pub running : Action → Option ℕ → EnsureResult
  running a pid = record {
    action = a;
    host = host;
    port = port;
    pid = pid;
    url = some (advertised_http_url env lan host port);
    error = none;
  }

  -- An `EnsureResult` with an error and no url.
  abbrev pub failing : Action → Option ℕ → Failure → EnsureResult
  failing a pid e = record {
    action = a;
    host = host;
    port = port;
    pid = pid;
    url = none;
    error = some e;
  }

  -- The loop of `_spawn_locked` from its n-th round, and what stands behind it; `none` if the fuel
  -- does not reach its end.
  unfoldable pub wait_listening : Seen → ℕ → ℕ → ℕ → Option EnsureResult
  wait_listening s deadline zero n = none
  wait_listening s deadline (suc fuel) n =
      let rest = wait_listening s deadline fuel (suc n) in
      let r = s.round n in
      if ltb r.time deadline
      then if r.listening
        then some (running started (some s.child))
        else if r.exited
        then if r.listening_after
          then some (running already_running (some s.child))
          else some (failing spawn_failed (some s.child) exited)
        else rest
      else if s.listening_last
      then some (running started (some s.child))
      else some (failing spawn_failed (some s.child) did_not_listen)

  -- `time.monotonic() + max(0.1, ready_timeout)`
  abbrev pub deadline_of : Seen → ℕ
  deadline_of s = s.start + (if leb 100 s.ready_timeout then s.ready_timeout else 100)

  -- `_spawn_locked`: whether a child was started, and the result.
  unfoldable pub spawn_locked : Seen → ℕ → Bool × Option EnsureResult
  unfolding wait_listening
  spawn_locked s fuel = elim s.log_error [
    | some e ↦ (false, some (failing spawn_failed none (exception e)))
    | none ↦ elim s.popen_error [
      | some e ↦ (false, some (failing spawn_failed none (exception e)))
      | none ↦ (true, wait_listening s (deadline_of s) fuel 0)
    ]
  ]

  -- `ensure_http_aggregator`, with the switch `http_auto_enabled` as its argument.
  unfoldable pub ensure_http_aggregator : Bool → Seen → ℕ → Bool × Option EnsureResult
  unfolding spawn_locked
  ensure_http_aggregator enabled s fuel =
      if not enabled
      then (false, some (failing disabled none switched_off))
      else if s.listening
      then (false, some (running already_running none))
      else elim s.lock_error [
        | some e ↦
            if s.listening_unlocked
            then (false, some (running already_running none))
            else (false, some (failing lock_timeout none (exception e)))
        | none ↦
            if s.listening_locked
            then (false, some (running already_running none))
            else spawn_locked s fuel
      ]

-- `ensure_http_aggregator` with its optional arguments `host` and `port`.
unfoldable pub ensure :
    Python
    → Environment
    → Option Text
    → Option Text
    → Option ℕ
    → Seen
    → ℕ
    → Bool × Option EnsureResult
unfolding ensure_http_aggregator http_bind_host http_bind_port http_auto_enabled
ensure py env lan host port s fuel =
    ensure_http_aggregator env lan (or_default host (http_bind_host py env))
      (or_default port (http_bind_port py env)) (http_auto_enabled py env) s fuel
