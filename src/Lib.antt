-- ===== src/Lib.antt =====
-- SROIAAA answers questions about infrastructure through policy. A route request names an
-- intent, and at most a host, a resource alias, a query, a time window and filters; the broker
-- turns it into a plan of one step or refuses it, and verifies a plan that was handed over
-- before anything executes it. One of the sources that a step can name is the endpoint agent, an
-- HTTP service that answers a fixed set of read-only operations on one machine. An executor runs
-- the steps of a plan at the connectors of their sources, each of which turns a step into
-- requests of one remote API. A session answers a question: it lets a language model propose
-- requests, gives it evidence or an error for each, and leaves one record of the question in an
-- audit file. The command broker-exec executes a plan that an untrusted caller hands it. The
-- development models internal/broker, internal/agent, internal/orchestrator, the executor and
-- three connectors of internal/connector, and that command.
--
-- The parts and the files:
--
-- - Base and its children: texts as lists of runes with the functions of package strings that
--   the program calls (Base/Text), lists measured by native numbers (Base/Lists), Go's `(T,
--   error)` as a value or an error (Base/Fallible), signed numbers (Base/Int), and the lexical
--   part of path/filepath (Base/FilePath: IsAbs, Clean).
-- - Broker/Types: internal/broker/types.go, the intents, sources, requests, plans, policies and
--   route errors. Broker/Policy: policy.go, the checks of a policy (validate_policy and one
--   function per kind of name and resource). Broker/Decode: the strict decoding in policy.go
--   (decode_one_json). Broker/Sql: sql.go, ValidateQuery. Broker/Monitoring: monitoring.go, the
--   filters and the row limit. Broker/Since: since.go, the bounds of a time window.
--   Broker/Router: router.go, NewRouter (new_router), Plan (plan, whose second switch is
--   step_for) and Verify (verify, with the loop verify_candidates over candidate_requests). The
--   proofs stand in the children that their names describe: Router/Shape and Router/Carries take
--   a plan apart, Router/Again plans it a second time, Router/Complete, Router/Windows and
--   Router/Ahead say which plans pass Verify, Router/Live and Router/Valid what live evidence is
--   allowed, Router/Honours what a plan keeps of its request.
-- - Agent/Types: internal/agent/types.go, catalog.go and errors.go, and the interface Host.
--   Agent/Paths: paths.go and canonicalizeRoots. Agent/Files: the four file operations of
--   service.go. Agent/Service: the other operations and Execute (execute, run_operation,
--   dispatch). Agent/Handler: handler.go and audit.go, from the routes (serve) through the
--   bearer token (require_bearer_auth) to the audit record (record_event) that comes before each
--   answer. Agent/Config: config.go, LoadConfigFromEnv (load_config).
-- - Base/LogFile: the Record of internal/agent/audit.go and of internal/orchestrator/audit.go,
--   one event as one line at the end of a file (record_event).
-- - Connector: internal/connector/executor.go, NewExecutor (new_executor) and Execute
--   (execute_plan); Connector/Laws relates a run to the steps that it made, Connector/Registered
--   the registry to the arguments. Connector/Evidence: types.go. Connector/Attempt: what the
--   connectors share, a computation that may fail and that acts on the world through an HTTP
--   client; Attempt/Effects says which requests it sends, Attempt/Laws what its result
--   satisfies.
-- - Connector/Rt: internal/connector/rt.go, NewRTConnector (new_rt_connector) and Execute
--   (rt_execute), with ticketSearchQuery in Rt/Query and the tickets and owners in Rt/Tickets.
--   Rt/Queries is about the requests, Rt/Accounts about the evidence, Query/Literals about the
--   text of a query.
-- - Connector/Zabbix: internal/connector/zabbix.go, NewZabbixConnector (new_zabbix_connector)
--   and Execute (zabbix_execute, with execute_triggers and execute_events), with applySelectors
--   in Zabbix/Selectors, the queries in Zabbix/Queries, the API calls and the censuses in
--   Zabbix/Calls, the rows in Zabbix/Rows, and the evidence with its warnings in Zabbix/Report.
--   Zabbix/Filters and Zabbix/Hosts are about the requests, Zabbix/Matching about what Zabbix
--   answered, and Calls/Adds, Zabbix/Exact and Zabbix/Totals about the counts.
-- - Connector/Pegasus: internal/connector/pegasusdb.go, NewPegasusConnector
--   (new_pegasus_connector) and Execute (pegasus_execute) with scanRows (scan_rows);
--   Pegasus/Shown is about what an item shows of a row, Pegasus/Bounded about what reaches the
--   database and what comes back.
-- - Orchestrator: internal/orchestrator/session.go, the intents of NewSession (session_intents),
--   runOneCall (run_one_call) and isRetryableRouteError (is_retryable); Orchestrator/Laws says
--   what a call can lead to. Orchestrator/Messages: the conversation and its estimated size
--   (room_for_more), and the tests of an answer (describes_a_call, disclose_withheld).
--   Orchestrator/Ask: Ask (ask, with the loop ask_from and the round ask_turn); Ask/Effects is
--   about what it does, Ask/Event with Ask/Withheld and Ask/Outcomes about the event.
--   Orchestrator/Audit: audit.go (record_question), and Ask with the record that it defers
--   (ask_and_audit).
-- - BrokerExec: cmd/sroiaaa-broker-exec/main.go, run from the flags to the exit code
--   (run_command, run, prepare, verify_plan, build_connectors). BrokerExec/Made is about the
--   connectors that it makes. The constructors of the connectors are an interface (Makers).
-- - The modules named Tests: the definitions run, and the theorems applied, at concrete inputs.
--
-- State and errors: the broker keeps none beyond the router. Its clock is an argument: `plan`
-- takes the two readings that Plan makes, `verify` a function that gives the reading of each
-- call. The agent's state is the contents of the audit file, which `serve` takes and returns; a
-- handler does not otherwise change anything. What the connectors reach is a state that a run
-- takes and returns, of any type. A question takes and returns, besides, the session's trace and
-- its audit event (Progress). An error is its code, and for the agent its HTTP status: the
-- messages, which no code reads, are left out, as are durations, time stamps of responses and
-- headers. A string that the source compares with constants is an enumeration with a case
-- `other` for the rest, in the broker; the agent compares the texts themselves.
--
-- Numbers: an instant is a number of nanoseconds since one day before the year 0, which is
-- within reach of every bound that the program computes; a duration is a Go int64, and where the
-- program computes one its wrap-around is written out (Broker/Since: before, times24). The limit
-- of a read in the agent is an int64 in the same way (Agent/Files: read_limit). Other numbers
-- are bounded by a check in the source, or by a length. The totals that RT and Zabbix give are
-- signed; their sums are taken without wrap-around, since a count of rows is far below 2^63.
-- Every loop is structural recursion on a list, a text or a number: the loop of Ask recurses on
-- the rounds that are left of maxToolCalls, which is five. There is no other fuel.
--
-- What the code takes from elsewhere is a parameter: the tables of package unicode above ASCII
-- (UnicodeTables), package time (Calendar, with the documented behaviour that some results need
-- stated as hypotheses), the operating system, encoding/json, strconv and bufio (Host,
-- DecodedBody, Environment), the decoding of a route request, the writes of the audit file
-- (Sink) and the digest that names a caller. sort.Slice is a sort by insertion. Concurrency is
-- left out: a request reads the file system once at each call, and the mutex of the audit file
-- makes each record one step.
--
-- Not modelled: the connectors of Wazuh and of the endpoint agent, internal/zoom and the other
-- commands under cmd, which are yet to be added; the HTTP client of the model gateway, which the
-- session takes as a parameter; the system prompt and the tool definition, which are texts; the
-- path cleaning and the redirects of net/http's ServeMux, since Agent/Handler takes the pattern
-- that a request matches from its path as it stands; scripts and deployment files, which hold no
-- logic of the program.
mod Base
pub mod Agent
pub mod Broker
pub mod BrokerExec
pub mod Connector
pub mod Orchestrator
