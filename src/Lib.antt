-- ===== src/Lib.antt =====
-- Praxis agent platform: a verification library of its deterministic core.
--
-- The platform plans an intent as a graph of steps, lets an orchestrator run them through skills
-- that call connectors, and holds every run to permissions, approvals and budgets. What is modelled
-- is the code that decides: which step may run, who may do what, what a call may cost, when a
-- failing dependency is left alone, and what becomes of work that failed. Each of these parts is a
-- module of its own in praxis/, and the orchestrator joins them.
--
-- The parts, each with its file:
-- - ExecutionGraph (praxis/core/execution_graph.py): the levels of a plan, compute_levels, and the
--   references of its arguments, resolve_args.
-- - Budget (praxis/agents/budget.py): the trackers of tokens, money, calls, time and children. The
--   trackers are objects that refer to their parents; here they stand in a ledger, where a tracker
--   is named by its place. A place bounds the length of a chain of parents, since a parent is made
--   before its children, and Budget.Chain shows that the bound never cuts a chain short.
-- - Contract (praxis/agents/contract.py): what a supervisor hands to a specialist. It carries a
--   budget of Budget.
-- - Delegation (praxis/agents/delegation.py): the tree of contracts in flight and its limits. The
--   climb to the root has one round for each node, which Delegation.Ancestry shows to be enough,
--   whether or not the tree has a cycle. The walk of descendants_of has the rounds that
--   Delegation.Tree counts, which are enough where children are registered after their parents, as
--   Delegation.Cancelling shows.
-- - Approval (praxis/security/approval.py, and _await_approval of praxis/core/orchestrator.py): the
--   approvals of steps that change something outside.
-- - Policy (praxis/security/policy.py, praxis/security/principal.py): roles, scopes, permissions.
-- - Gate (praxis/api/dependencies.py, praxis/security/audit.py): authorize_resource, which asks
--   Policy and writes the audit log.
-- - Breaker (praxis/connectors/resilience.py): the circuit breaker of a connector.
-- - Resilience (praxis/connectors/resilience.py): the breakers and limiters of all connectors. A
--   call of a connector goes through its Breaker.
-- - Retry (praxis/connectors/retry.py): call_with_retry. Its attempts are counted down, which is
--   the loop's own bound.
-- - DeadLetter (praxis/core/dead_letter.py): work that failed, its retries and its end.
-- - Modes (praxis/core/execution_mode.py, praxis/core/risk_policy.py): how far a task may go.
-- - MemoryCache (praxis/cache/memory_cache.py): entries with a time to live.
-- - Publication (praxis/agents/publication.py, praxis/agents/manifest.py): the versions of a skill,
--   their approval and their way out of quarantine. It asks Policy who may approve. Its table has two
--   more writers, in Publication.Entries (praxis/agents/capability_factory.py and
--   praxis/agents/procedure_registry.py).
-- - Checklist: the items of a task's checklist and the reasons in them, for Approval and StepRunner.
-- - Outputs (praxis/safety/output_validation.py): the validation of what a skill returns.
-- - ToolChain (praxis/agents/toollink.py): chains of tools, their validation and their run.
-- - Schedules (praxis/agents/schedules.py): missed runs and the overlap policy. The loop over the
--   missed slots has the thousand rounds of the source.
-- - Loop (praxis/agents/loop.py): the bounded loop of an agent, which calls skills, chains and other
--   agents under a Contract, a Budget and the limits of Delegation. Its fuel is the recursion limit
--   that the code gives to LangGraph, two more than max_iterations, which Loop.Endings shows to be
--   enough: a run never reaches it.
-- - StepRunner (praxis/core/orchestrator.py): run_step, the body of every node of a task's graph. It
--   resolves arguments by ExecutionGraph, asks the catalogue of Publication, the mode of Modes and
--   the operator of Approval, and validates by Outputs. Other steps act on the shared state while a
--   skill runs, as a function that is an argument.
-- - Common: names of the libraries, Python's dicts and lists, results and exceptions.
--
-- Operations keep the names of the source. An object that is changed in place is a record that an
-- operation takes and returns. An exception is the err of a Result. A coroutine that is awaited
-- is an argument: the way it ends and what other tasks did to the shared object meanwhile, so that
-- a run of several tasks is a list of events, in any order. A clock is an argument, in seconds; its
-- fractions are left out. Money is exact: a rate is in cents for a million tokens, a cost in units
-- of a hundred-millionth of a dollar, so that the rounding of a float does not occur. Python's
-- integers do not overflow, and the numbers here are those of the source with no bound.
--
-- A table of the database is a list of rows, with the newest first where a query asks for that, and
-- a session that ends by an exception leaves it as it was. The databases, the limiter of aiolimiter,
-- the digests of hashlib and the identifiers of uuid are parameters.
--
-- Not modelled: the calls of language models, the clients of single vendors, parsing and chart
-- code, the HTTP routes and the command line, which are calls of libraries; the LangGraph engine
-- that the orchestrator runs on; and the texts of messages, of which the parts that they are made of
-- are kept. Of the parts above, run_graph of an execution graph, the reaping of orphans in a
-- delegation tree, the life of a task around the step runner and the scheduler's loops are left out.
pub mod Common
pub mod ExecutionGraph
pub mod Budget
pub mod Contract
pub mod Delegation
pub mod Approval
pub mod Policy
pub mod Gate
pub mod Breaker
pub mod Resilience
pub mod Retry
pub mod DeadLetter
pub mod Modes
pub mod MemoryCache
pub mod Publication
pub mod Checklist
pub mod Outputs
pub mod ToolChain
pub mod Schedules
pub mod Loop
pub mod StepRunner
