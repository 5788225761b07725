-- ===== src/Lib.antt =====
-- ida-multi-mcp: an MCP server that multiplexes several IDA Pro instances.
--
-- The server reads a registry of instances (a JSON file shared by processes), routes each tool call
-- to the instance that it names, checks that the instance still has the same binary, sweeps dead
-- instances, and keeps large outputs in a cache from which clients read them in chunks.
--
-- Files, with the code that each models (paths under src/ida_multi_mcp/):
--   Prelude: Python's texts (lists of code points), insertion-ordered dicts, lists, tests.
--   InstanceId: instance_id.py.
--   Cache: cache.py; one definition for each method of ResponseCache, with the clock and the fresh
--     id as arguments.
--   Registry: registry.py. Schema is the data and its validation, Disk the file and the read cache
--     (_load, _save, _snapshot), Changes what each method does to the data, Api the methods.
--   Health: health.py. The operating system and the instances' answers are a record World.
--   Router: router.py. HTTP is a function from requests to replies.
--   Aggregator: http_aggregator.py, with advertised_http_url of server.py.
--   Index: tools/index_store.py. Names has the keys and file names, Rows the files of JSON lines.
--   Sessions: idalib_manager.py, over the registry and the health checks; Launch is spawn_session.
--     Signals sent to a worker are part of a method's result.
--   Similarity: tools/sim_score.py, and the candidates of tools/similarity.py. A Python set is a list
--     of which only the members matter.
--   Lock: filelock.py, as the steps of threads of several processes.
--   Json: JSON values and _json_text of server.py; Preview: _schema_preserving_preview there.
--   ToolSchemas: _coerce_structured_for_schema of server.py; Building is _build_tool_cache.
--   Output: custom_tools_call of server.py, behind the router, over Preview, ToolSchemas and Cache.
--   Export: _handle_decompile_to_file of server.py, with paginate of ida_mcp/utils.py; Run is the whole.
--   Analysis: _analysis_incomplete of server.py and analysis_wait of tools/management.py.
--   Samples: values for the tests, which stand in the modules called Tests.
-- A method is a function from the state to the new state and its result. A method under a lock is
-- one step. Exceptions are values.
--
-- Python's Unicode tables, IP parser, ISO timestamps and SHA-256 are a parameter, the record Python.
-- Times are natural numbers. A loop is a recursion on the list that it walks or shortens, so no fuel
-- is needed, except for read_all, a client's loop, for the loop over the pages of functions, and for
-- the waiting loops of the aggregator, of the sessions and of analysis_wait. Enough are: for read_all a
-- round for each character behind the offset it begins at, for the pages a round each and one at least,
-- and for a waiting loop the rounds that its timeout has room for and one more.
--
-- The index store works on a directory, a dict from names to texts; JSON is a parameter, and theorems
-- on round trips suppose that it reads back what it wrote of the rows at hand.
--
-- Not modelled: the MCP protocol layer (vendored), the tools that run inside IDA, similarity scores
-- (floating point), installation, I/O errors while the registry is saved, and the parsing of the
-- listings of other programs. Of server.py the start-up and the dispatch of the server's own tools
-- are left out, of tools/management.py compare_binaries, of tools/similarity.py the background jobs.
pub mod Prelude
pub mod Samples
pub mod InstanceId
pub mod Cache
pub mod Registry
pub mod Health
pub mod Router
pub mod Aggregator
pub mod Index
pub mod Sessions
pub mod Similarity
pub mod Json
pub mod Preview
pub mod ToolSchemas
pub mod Output
pub mod Export
pub mod Analysis
pub mod Lock
