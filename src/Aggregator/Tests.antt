-- ===== src/Aggregator/Tests.antt =====
-- Runs of src/ida_multi_mcp/http_aggregator.py on small observations.
use ida_multi_mcp.Prelude.{
  suc, ◌+◌, ◌*◌, ◌≤◌, ◌≡◌, refl, true, false, List, [], ◌∷◌, none, some, pos, text, text_eq,
  text_in, lstrip, rstrip, strip, is_some, ltb, arith,
}
use ida_multi_mcp.Samples.{python}
use ida_multi_mcp.Aggregator.{
  Environment, Seen, default_host, http_bind_host, http_bind_port, probe_host, has_colon,
  advertised_http_url, spawn_locked, ensure_http_aggregator,
}
use ida_multi_mcp.Aggregator.Answers.{Sound, ensure_http_aggregator-Sound}
use ida_multi_mcp.Aggregator.Single.{Turn, started_late, launched, Observed, turns-started_late}
use ida_multi_mcp.Aggregator.Waiting.{Sleeps, ensure_http_aggregator-some}

abbrev environment : Environment
environment = record {
  http = some (text " Yes");
  http_host = some (text "::");
  http_port = some (text "70000");
  int_of = λ t. some (pos 70000);
  str_of = λ n. text "8745";
}

-- Nobody listens; the child listens 120 milliseconds after it was started.
abbrev slow : Seen
slow = record {
  listening = false;
  lock_error = none;
  listening_unlocked = false;
  listening_locked = false;
  log_error = none;
  popen_error = none;
  child = 77;
  start = 1000;
  ready_timeout = 5000;
  round = λ n. record {
    time = 1000 + 60 * n;
    listening = ltb 120 (60 * n);
    exited = false;
    listening_after = false;
  };
  listening_last = false;
}

-- A second process waits for the lock meanwhile, and finds the listener.
abbrev waiting : Seen
waiting = record slow { listening_locked = true }

port_default : http_bind_port python environment ≡ 8745
unfolding http_bind_port strip lstrip rstrip
port_default = refl

host_set : http_bind_host python environment ≡ text "::"
unfolding http_bind_host strip lstrip rstrip
host_set = refl

url_of_wildcard :
    advertised_http_url environment (some (text "fe80::1")) (text "::") 8745
    ≡ text "http://[fe80::1]:8745/mcp"
unfolding advertised_http_url text_in text_eq has_colon
url_of_wildcard = refl

probe_of_wildcard : probe_host default_host ≡ text "127.0.0.1"
unfolding probe_host text_in text_eq
probe_of_wildcard = refl

starts : (ensure_http_aggregator environment none default_host 8745 true slow 5).0 ≡ true
unfolding ensure_http_aggregator spawn_locked
starts = refl

ensure_http_aggregator-Sound_example :
    Sound environment none default_host 8745 slow
      (ensure_http_aggregator environment none default_host 8745 true slow 5).1
ensure_http_aggregator-Sound_example =
    ensure_http_aggregator-Sound environment none default_host 8745 true slow 5

-- The child of a call that gives up listens later, which the call that was waiting finds.
abbrev late : Seen
late = record slow {
  ready_timeout = 100;
  round = λ n. record {
    time = 1000 + 60 * n;
    listening = false;
    exited = false;
    listening_after = false;
  };
}

abbrev two_turns : List Turn
two_turns =
    record { seen = late; fuel = 5; before = false; after = true }
    ∷ record { seen = waiting; fuel = 5; before = true; after = true }
    ∷ []

two_turns-Observed : Observed environment none default_host 8745 true false two_turns
two_turns-Observed = (
  (λ h. absurd (ground arith)),
  refl,
  (λ h. refl),
  (λ h. refl),
  ((λ h. refl), refl, (λ h. refl), (λ h. refl), tt),
)

turns-started_late_example :
    (started_late environment none default_host 8745 true false two_turns ≡ 0)
    × (launched environment none default_host 8745 true two_turns ≤ 1)
turns-started_late_example =
    turns-started_late environment none default_host 8745 true false two_turns two_turns-Observed

slow-Sleeps : Sleeps slow
slow-Sleeps n = omega arith

ensure_http_aggregator-some_example :
    is_some (ensure_http_aggregator environment none default_host 8745 true slow (suc 100)).1 ≡ true
ensure_http_aggregator-some_example =
    ensure_http_aggregator-some environment none default_host 8745 true slow 100 slow-Sleeps
      (omega arith) (omega arith) (omega arith)
