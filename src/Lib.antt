-- ===== src/Lib.antt =====
-- Hermeskill: supervision of AI agents that run inside a host process. An agent's hooks report its
-- calls, the state of the agent counts them, checks compare the counts with a policy, and an agent that
-- breaks its policy is flagged and has to stop; an operator can flag it from the control plane.
--
-- The parts, with the files that model them (paths from the repository's root; sdk stands for
-- packages/hermeskill-sdk/src/hermeskill, hermes for
-- packages/hermeskill-hermes/src/hermeskill_hermes, control for
-- packages/hermeskill-control-plane/src/control_plane):
--   * Policy: sdk/types/enums.py, sdk/types/policy.py, sdk/policies.py. Policies and their validators.
--   * Pricing: sdk/pricing.py. The cost of a model call.
--   * Watcher: sdk/watcher.py, `WatcherState`. The state of one agent and its mutators, each a function
--     from the state and its arguments to the next state.
--   * Checks: sdk/checks.py. `run_all` reads the state and a policy and returns verdicts; `apply_grants`
--     turns the verdicts that an operator has excused into warnings.
--   * Bridge: hermes/bridge.py. One function for each hook of the agent's host: it records the call,
--     runs the checks, and acts on the verdicts. Bridge/Machine has the calls that reach a state as a
--     list, and `run` makes them one after another.
--   * Worker: sdk/watcher.py, the registry, `BackgroundWorker` and `KillPendingPoller`. The answers of
--     the control plane are arguments.
--   * ControlPlane: control/db/models and the handlers of control/api on the store: KillEvents has
--     kill_events.py and manual_kill.py, Grants has grants.py and heartbeats.py, Feedback has
--     feedback.py, Approvals has approvals.py, Fleet has agents.py, and Events has events.py.
--     Requests serves any list of requests.
--   * OperatorKill: the kill of an operator through the handlers and the poller.
--   * Json: the Python values that hooks carry. Redaction: sdk/capability/redaction.py.
--   * Capability: the resolver, the gateway, the enforcer and the map of tools of sdk/capability.
--   * ToolApproval: `evaluate_tool_approval` of hermes/bridge.py, the wait for an operator before a risky
--     call, over the answers of an approval service (sdk/approval.py).
--   * Plugin: hermes/plugin.py. Plugin has `pre_tool_call`, which lets a call run or blocks it;
--     Plugin/Sessions has `ensure_session`, `session_finalize` and `shutdown` as steps of threads, one
--     for each section under the lock and each call of the registry. A creation can raise, or outlast the wait of its
--     owner, at any point of these.
--   * Certificate and Watchdog: sdk/apoptosis.py. The report of a kill, and the thread that cancels a
--     task.
--   * Supervisor: sdk/supervisor.py. The run of a child process, over the looks of its parent, at
--     each of which an exception can be raised.
--   * Vitals: sdk/vitals.py. The snapshot of an agent, and the directory that a monitor lists.
--   * Monitor: sdk/cli.py, `hermeskill monitor`. The panel for a snapshot, with its gauges.
--   * Calibration: sdk/calibration.py and control/api/calibration.py.
--   * Common: shared names, Boolean tests, lists, texts, dictionaries, equality. Tests: sample data and runs.
--
-- Numbers are natural numbers, as in the source, which has no bounds on them. Money is counted in
-- 10⁻⁸ dollars, in which every cost of the price table is a whole number; the source computes in
-- floats, and their rounding is not modelled. A clock reading is in microseconds, and a hook reads the
-- clock once. A reason is kept as its template with its arguments, and a detail as the list of its
-- keys and values. The loop of the drain runs on the number of events as fuel, which is enough since
-- each turn takes at least one of them. `json.dumps`, `repr` and `sha1` are parameters of the
-- signature; the hooks take the signature, or none when it raised.
--
-- A table of the store is the list of its rows, oldest first. The unique indexes are tests on the table,
-- a commit that breaks one gives back the store before, and the ids, hashes and times that the source
-- draws are arguments.
--
-- Pages of events are followed on fuel, one more than the number of the agent's events, which is enough since
-- each page before the last has at least one event. The regular expressions of the redaction, the serializer and
-- the hash of the arguments, and the approval service are parameters; none stands for an exception of theirs.
--
-- Not modelled: the command line but for the monitor's panel, the HTTP client, the set-up of the servers and threads, the database
-- declarations, what only logs or prints, and some routes that only read. Nor are, so far, the
-- in-memory approval service, the deprecated direct set-up of hermes/plugin.py, and the end of a session there with
-- the post of its certificate. Threads are interleaved at the sections that the source locks.
pub mod Common
pub mod Policy
pub mod Pricing
pub mod Watcher
pub mod Checks
pub mod Bridge
pub mod Worker
pub mod ControlPlane
pub mod OperatorKill
pub mod Json
pub mod Redaction
pub mod Capability
pub mod ToolApproval
pub mod Plugin
pub mod Calibration
pub mod Certificate
pub mod Watchdog
pub mod Supervisor
pub mod Vitals
pub mod Monitor
pub mod Tests
