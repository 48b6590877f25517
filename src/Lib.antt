-- ===== src/Lib.antt =====
-- Models of the deliberation backend: how a session of agents is steered, how what they do is
-- recorded, and how a decision is computed from it.
--
-- The consensus engine (backend/app/application/consensus.py over the types of
-- backend/app/ports/consensus.py) takes a context of alternatives, positions, evidence, critiques
-- and verdicts of feasibility, runs one of three strategies that a registry resolves by name and
-- version, and stores the result. Each strategy begins with the shared feasibility gate of
-- backend/app/domain/consensus.py. The reasoning ledger (backend/app/domain/reasoning_ledger.py,
-- backend/app/db/reasoning_ledger.py) is an append-only chain of hashed events for each session. The
-- session lifecycle (backend/app/domain/session_lifecycle.py, backend/app/db/session_lifecycle.py,
-- backend/app/adapters/inmemory/session_lifecycle.py) moves a session between its states and appends
-- an event to the ledger with every move; the session controls (backend/app/domain/session_control.py,
-- backend/app/application/session_control.py, backend/app/db/session_control.py) turn the requests of
-- users into such moves. The coordinator (backend/app/domain/coordinator_policy.py,
-- backend/app/application/coordinator_policy.py, backend/app/db/coordinator_policy.py) changes the agents
-- of a session, with an event for every change, and ends sessions that are over their budget. A replay
-- (backend/app/domain/replay.py, backend/app/application/replay.py) checks a recorded session against its
-- ledger and runs its steps again. Retrieval (backend/app/domain/retrieval.py,
-- backend/app/application/retrieval.py) searches evidence, fuses and reranks what is found, and audits
-- every attempt. Critiques (backend/app/domain/critique.py, backend/app/application/critique_commit.py,
-- backend/app/application/critique_response.py) come in bundles, which are checked against what the
-- critic was assigned, and are answered by responses.
--
-- Prelude: shared names, results for code that raises, lists, dictionaries, and Python's stable sort.
-- Decimal: `decimal.Decimal` as an interface of operations and laws, since its arithmetic rounds;
--   Decimal/Fixed is an instance with two places.
-- Consensus/Types: the value objects of ports/consensus.py. Consensus/Params: the parameters that the
--   strategies read. Consensus/Gate: `feasibility_gate` and `SymbolicUnknownPolicy.decide_status`.
--   Consensus/Support, Evidence, Dominance, Outcome: the helper functions of consensus.py and what the
--   strategies share; a division by zero raises (`divide`). Consensus/Checks: the validators that run
--   when a result and its parts are built, after which an evaluation returns. Consensus/Weighted, EvidenceWeighted, ConstraintAware: `evaluate` of the three
--   strategies. Consensus/Registry, Orchestrator: `StrategyRegistry` and `ConsensusOrchestrator.run`
--   over the tables of backend/app/db/consensus.py and the constraints on their rows of
--   backend/app/db/models/source_impact.py; a run that a constraint refuses stores nothing.
--   Consensus/Contract and Consensus/Sound are about
--   what docs/CONSENSUS_MODEL.md asks of every result, Consensus/Ranking about the order of scores,
--   Consensus/Frontier about what the constraint-aware strategy scores and selects, and
--   Consensus/Orchestrator/Kept and Laws about the tables that runs leave. Consensus/Total is about the
--   divisions and the validators that an evaluation meets.
-- Ledger/Defs: the events, the tables and the operations `append`, `get_by_id`, `read` and `verify`.
--   An append takes two states of the tables: the one seen by the first lookup and the one under the
--   lock on the head. Ledger/Chain, Append, Retry, Tamper are about them.
-- Session/States: `_TRANSITIONS`, `validate_session_transition` and the validators. Session/Store: the
--   operations of the two stores. Session/Controls: requests, commands and the committer.
--   Session/Graph, Transition, Adapters, Effects, History, Requests, Replay are about them.
-- Budget: `BudgetCoordinator.enforce` of backend/app/application/coordinator_policy.py, which ends a
--   session over its budget by a lifecycle transition. Budget/Usage: the sums of what was used, over the
--   records of calls. Budget/Dispatch: `BudgetedAgentTurnDispatcher.dispatch`. Budget/Laws, Spent, Ended
--   and Final are about them.
-- Members/Types, Store, Coordinator: `SqlAlchemyCoordinatorPolicyStore.membership` and
--   `add_intervention` over the tables of agents, and `SessionMembershipCoordinator.apply`, which appends
--   to the ledger as above. The column `referenced_at` is a table of its own, `referenced`.
--   Members/Order, Change, Valid, Approve, Apply, Retry are about them.
-- Replays/Types: the value objects of domain/replay.py with their validators. Replays/Registry, Steps,
--   Service, Modes: `ReplayImplementationRegistry`, the bodies of the loops, the checks of the source,
--   and the modes of `SessionReplayService.replay`. Replays/Pages and Total are about the loops,
--   Replays/Answers, Reproduced, Strict and Tolerant about what a replay answers.
-- Retrieval/Types, Fusion, Retriever: the value objects of domain/retrieval.py,
--   `reciprocal_rank_fusion`, `_validate_reranker_output` and `HybridRetriever.retrieve`.
--   Retrieval/Audited, Distinct, Bounds, Ranks are about them.
-- Critiques/Types, Bundles, Responses: the payload of a critique and the proposals of a turn,
--   `validate_critic_bundle` and `CritiqueProposalCommitter.commit`, and the shapes of a response and of
--   the result that `_result` makes of it. Critiques/Accepted and Answered are about them.
-- Examples: the theorems at concrete inputs.
--
-- Identifiers (UUIDs) and times are natural numbers: the code only compares them. Decimals, hashes and
-- the scores of a retrieval are parameters with laws. The loops of the code are over finite collections
-- and are structural recursion here, but for the loop of a replay over the pages of the ledger
-- (`read_pages`): it takes fuel, of which one more than the session has events is enough. A function
-- that raises returns an error value; the state it leaves is returned beside it.
--
-- Parameters are what the code is given: the store of histories, the implementations of steps, the
-- launcher of live sessions and the check of learning bundles for a replay, what runs a batch of turns,
-- the committer of proposals and the derived identities for critiques, the searches, the reranker and the
-- clock for a retrieval, and the projection of lifecycle rows for the coordinator. A live launch gets the
-- selections as the list that the code makes a dict of.
--
-- Not modelled: the free-form tables of derivations and explanations, the canonical JSON and its
-- SHA-256 (parameters), the fields of a context that no strategy reads, the texts that explain a
-- mismatch, the checks of the form of a text field, blocking of concurrent transactions other than
-- through the two states of an append, the queries of the result store and of
-- ceilings, and the rest of
-- the backend (the effects of responses to critiques, agents, ingestion, tools, learning, API) and the frontend.
pub mod Prelude
pub mod Decimal
pub mod Consensus
pub mod Ledger
pub mod Replays
pub mod Session
pub mod Budget
pub mod Members
pub mod Retrieval
pub mod Critiques
pub mod Examples
