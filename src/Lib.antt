-- ===== src/Lib.antt =====
-- CHAINBREAK measures how authority flows through chains of delegated identities: it compiles a
-- scenario into an authorization graph, probes what each identity can do, compares the observed
-- authority with the expected, and scores what it finds. This library models the domain layer,
-- the scenario compiler, the graph algorithms, the capability bindings, the analysis, the
-- scoring, the simulated provider with its adapter, and the polling and the reverting of a
-- mutation, translated definition by definition from the Python sources, with the theorems that
-- make them correct.
--
-- Files and sources:
--   Common      shared names, lists, texts, signed integers, dictionaries, lists without repetition
--   Core        src/chainbreak/core. Core/Authority is AuthoritySet (a frozenset, here a list read
--               through membership, whose canonical form is `sorted`); Core/Enums and Core/Errors are
--               enums.py and errors.py; Core/Models has the records of models.py with their validators
--               as functions into `Result` (Core/Credentials has CredentialRecord); Core/Graph is
--               AuthorizationGraph, with Kahn's algorithm in Core/Graph/Kahn
--               and the enumeration of paths in Core/Graph/Walk; Core/Safety is safety.py,
--               the gate before every run; Core/Capabilities is the data of capabilities.py and
--               Core/Clock the clock that a run reads, clock.py; Core/Ids is the generator
--               of identifiers in ids.py, whose two module variables are a state that a call passes on
--   Capabilities src/chainbreak/capabilities. Loader is loader.py, Registry registry.py, Guard is
--               guard.py, which keeps a probe's operations inside its binding, and Preconditions is
--               preconditions.py
--   Scenarios   src/chainbreak/scenarios. Spec is schema.py with its validators, Derivation is
--               `_build_nodes_and_edges` of compiler.py, whose recursion `visit` fills the record
--               `Derived`; Universe is the probe universe with the matrices, Phases the plans made of
--               the phases, Compiler is `compile_scenario` with policy_synthesis.py, Plan is
--               plan.py, and Bounded is `_assert_bounded` of safety.py, on the tree of a document
--   Graph       src/chainbreak/graph. Builder is builder.py (invariants G-3 to G-5), Divergence is
--               divergence.py, Paths is paths.py
--   Analysis    src/chainbreak/analysis. Cells and Authority are authority.py with ProbeCellResult,
--               Timing is timing.py, Stale is stale.py, Confidence is confidence.py with
--               min_confidence, Findings is `_build` of rules.py, Rules its authority-axis rules,
--               Tasks its task rules with task_contract.py, Detector is detector.py, and Divergence
--               is divergence.py, which applies the graph algorithms to one observed graph
--   Scoring     src/chainbreak/scoring. Coverage is coverage.py and confidence.py, Categories is
--               `_finalize` of categories.py
--   Providers   src/chainbreak/providers. Namespace is the resource namespace; Fake has the files of
--               fake: Engine, Session, Consistency, Clock, Probes and Adapter, whose record
--               `FakeProviderAdapter` holds the fields of that class (identities, sessions, policies,
--               events, the clock and the failures to inject). Adapter/Delegate, Adapter/Probe and
--               Adapter/Mutate are its methods of those names, each a function from the adapter to a result with the
--               adapter after the call; Adapter/Steps is the relation of one call to the next, and the
--               other child modules prove what the methods do
--   Execution   src/chainbreak/execution. Polling is polling.py, Revert is revert.py
--
-- How the parts meet: Scenarios derives the nodes and edges of a scenario, has them checked by
-- Graph/Builder, resolves what it names through Capabilities, and makes the matrices that
-- Core/Safety counts and the plans that Execution carries out; a graph is validated by Core/Graph
-- on construction and checked further by Graph/Builder; Capabilities resolves a scenario's
-- capabilities to bindings, which Execution/Polling sends to the provider through the record
-- `PollCalls`; Analysis/Authority turns observations into cells and cells into the observed
-- authority of the graph's nodes; Graph/Divergence and Graph/Paths compare it with the expected;
-- Analysis/Confidence gates each finding, Analysis/Detector checks the negative controls, and
-- Scoring/Categories combines both into a category result. The simulated adapter answers probes
-- by Engine, Session and Consistency, and Execution/Revert undoes the mutations that a phase
-- made.
--
-- Representation: identifiers (of identities, capabilities, edges, observations) are natural
-- numbers, numbered in the order of their texts, since the code only compares them. A Python
-- exception is an `err` of the result. A float that is a quotient of counts is the pair of
-- counts, compared with a decimal by cross-multiplication; seconds computed from nanoseconds are
-- exact integers. Dictionaries are association lists.
--
-- Bounds: Kahn's loop runs on fuel, one round for each node; every round takes a node from the
-- queue, and no node is queued twice, and a second relation without fuel shows that its queue empties. The polling loop runs on fuel; each round counts one
-- interval, so that the longest duration divided by the interval, plus one, is enough. The
-- recursion that enumerates paths runs on fuel, for which the ranks of an acyclic graph are
-- enough. The recursion `visit` runs on fuel, for which one more than the number of delegations
-- is enough where their ids differ and the root is no target; the guard of documents, for which
-- two more than the ceiling on values is. Every other loop of the source walks a sequence and is
-- structural recursion.
--
-- Parameters: the SHA-256 digests, Python's `re.fullmatch` and `str.format`, the texts of
-- identities, the clocks and `sleep`, the random bytes, the draws of the random generator, and
-- the size of a policy document. Not modelled: texts and rationales of findings, file and
-- command-line input and output, the AWS provider (calls of its SDK), reporting, the evidence
-- store, the reading of documents (by the YAML library and pydantic, whose single-field ranges
-- and patterns are left out), and the rest of the execution layer (orchestrator, matrix, task
-- runner).
pub mod Common
pub mod Core
pub mod Capabilities
pub mod Execution
pub mod Analysis
pub mod Graph
pub mod Scoring
pub mod Scenarios
pub mod Providers
