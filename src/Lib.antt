-- ===== src/Lib.antt =====
-- RoutePilot: the control plane of a travel-planning service, in Python.
--
-- A traveller's trip belongs to a tenant. A run is one request on a trip: a worker claims it under a
-- lease, lets agents work on it, and publishes the artifact that results. Agents are reached by the
-- A2A protocol, as tasks, and live data comes from providers, through a gateway. The planner's agent
-- turns candidate places into a plan, which a validator must pass before it is published. Events leave
-- through an outbox. Two stores carry the state of tasks and of the product:
--
--   A2a.TaskStore   agent/travel_agent/a2a/store.py, class InMemoryAgentTaskStore: tasks of agents,
--                   with their dispatch index, execution leases and attempts.
--                   Types (records, errors, the state), Methods (one definition for each method),
--                   Steps (calls and their histories), Invariant, Progress (what only grows),
--                   Fencing (leases and versions), Dispatch (one task for each dispatch), Queries
--                   (listings and waiting), Tests.
--   Platform        backend/moyuan_web/v1. Models: the values of models.py. Input: its
--                   validate_run_input_values. Contracts: the registry in
--                   packages/python/routepilot_contracts (validation.py).
--   Platform.Store  backend/moyuan_web/v1/store.py, class InMemoryPlatformStore: trips, members, runs,
--                   events, artifacts, idempotency keys and execution leases. State (the state and
--                   the checks that methods share), then the methods by their subject: Trips,
--                   Leases, Runs, Mutation (mutate_run), Resume (resume_run), Artifacts, Commands
--                   (command_artifact). Core and its children (the part that runs live in, and each
--                   method as a change of it), History (calls and their histories), Invariant,
--                   Progress, Inversion and Fencing are about runs; Superseding, Publication and Torn
--                   about what a run publishes; Access, Keying, Barring and Tenancy about who may
--                   change a trip; Retry about idempotency keys; Resumption about resume_run; Editing
--                   about the versions of an artifact; Tests, Scenarios and ResumeTests run the store on
--                   small inputs.
--   Providers.Gateway  agent/travel_agent/providers/gateway.py, class ProviderGateway, and errors.py:
--                   the circuit breaker of each provider, the request window of each provider and
--                   tenant, and the caches. Types; Circuit (the methods on circuits and windows, each
--                   of which holds the state lock); Cache (remembering, stale fallback); Prune (pruning
--                   and the answers that need no provider); Calls (histories of callers). Window, Quota
--                   and Limit are about the rate; Counting, Breaker and Probe about circuits; Replay,
--                   Idempotency, Room, Bounds, Keys and Separation about the caches; Tests and
--                   CacheTests run it.
--   Itinerary       agent/travel_agent/runtime_v2, planning.py and validation.py, and the rules of the
--                   contract models in packages/python/routepilot_contracts. Types; Contract and
--                   Rules (the model validators), Limits (how many blocks a check may name);
--                   Planner, Schedule and Build (DeterministicPlanner: its choice of candidates, its
--                   loops, and build_candidate);
--                   Constraints and Validate (DeterministicConstraintValidator); Review
--                   (DeterministicSemanticVerifier); Policy (ValidationPolicyService). Feasible says
--                   without code what a plan must be; Soundness, Refinement, Release and Publishing
--                   compare the reports with it, and Filing says what the policy puts where. Rounds,
--                   Daytime, Arrival, Punctual, Days and Composition follow the planner's plan into the
--                   validator; Midnight and Breaks are about the end of a day; Samples and Tests run
--                   both.
--   Outbox          backend/moyuan_web/v1/outbox.py. Repository (PostgresOutboxRepository over a table
--                   as the list of its rows); Dispatch (OutboxDispatcher); Calls (histories of
--                   transactions and workers, which may stop anywhere). Rows and Changes (what one
--                   step keeps), Delivery, Drain and Exclusive are about what arrives, what is
--                   drained, and leases; Tests runs it.
--   Rag             agent/travel_agent/rag. Chunker, Ink, Windows and Chunks: ParagraphWindowChunker of
--                   text.py. Knowledge, Applied, Commands and Versions: the management of documents in
--                   memory.py, class InMemoryKnowledgeRepository. Tests and CommandTests run them.
--   Common          equality tests, dictionaries, sets, sorting, JSON values and two small monads.
--
-- How the code is translated. A method keeps its Python name. It is a function of the principal, of
-- its arguments, and of the store, and gives a result and the store after it: Exec and Result in
-- Common. A raise is an error value, and the writes that came before it stay, as they do in Python. A
-- method body runs under one asyncio condition and awaits nothing inside it, so that it is one step,
-- and an interleaving of callers is a list of calls. A reading of the clock, in microseconds, and an
-- identifier that the method makes up are arguments, so that a theorem holds for all of them. A dict is
-- an association list in the order of insertion; an attribute that starts with an underscore loses it.
-- A waiting method is given the states at which its predicate is evaluated. Deep copies are values.
--
-- A number is a natural number without a bound, as a Python integer is; the code never goes below zero
-- here, but in differences of times, which are integers. A date is a number of days, a time of day is
-- in microseconds, an amount of money in ten-thousandths. The planner computes in minutes of a day that
-- may run past midnight. Each recursion is on a list or on a number, but for the chunker's loop over a
-- paragraph, which has one unit of fuel more than the paragraph has characters, and ends within it.
--
-- A contract model is its fields that the modelled code reads; its validators are functions that
-- return their ValueError. The limits on the lengths of fields are not part of the functions, so that
-- validate and combine return where the code raises on a report that is too long: a check may name 100
-- blocks, a report may hold 2000 checks, and a verdict 500 blockers and 500 warnings. An identifier
-- made up by new_id, a time stamp and a source are left out of the artifacts where nothing reads them.
-- An evidence coverage ratio is a fraction: the code's Decimal quotient is rounded at 28 digits, which
-- no count of claims that a plan can hold brings across 0.9.
--
-- Parameters: date.fromisoformat, as a function that may fail, and the Pydantic models behind the
-- contract registry; str.casefold, str.upper and the printing of a Decimal; the planner's route service;
-- what comes of publishing a record; SHA-256 of a command.
--
-- Not modelled: the adapters on Postgres but for the outbox, the HTTP routes, the agents and the model
-- calls, the ingestion, ranking and retrieval of knowledge (floating-point scores), the gateway's loop
-- over providers, the floating-point route estimate, the web client, and the deployment. Pydantic's
-- checks of requests are not modelled either: a request is a value of the request's type.
pub mod Common
pub mod A2a
pub mod Platform
pub mod Providers
pub mod Rag
pub mod Itinerary
pub mod Outbox
