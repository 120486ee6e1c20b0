-- ===== src/Lib.antt =====
-- AgentLoopGate decides whether a change of an agent harness that an updater proposes may be
-- promoted. This library models its decision core.
--
-- The parts and their files:
-- Base: truth values, lists, keys and dictionaries, results, sorting, Python's Decimal in its
-- default context (28 digits, half-even) on values that are not negative, and integers.
-- Schemas: the enumerations, records and validators of agentloopgate/schemas/models.py, and the
-- gate check of agentloopgate/traces/base.py. A validator is a function check_... into Result.
-- Contracts: agentloopgate/contracts/objective.py, freezing and verifying the contract.
-- Splits: agentloopgate/splits. Access is SplitAccessPolicy; Service is SplitService, with the
-- loops over pools and tasks as structural recursion on their lists.
-- Evaluation: agentloopgate/evaluation. Metrics is EvaluationAuditor: summarize folds the runs
-- into a Tally and builds an EvaluationSummary; compare relates two summaries. Reset is
-- assess_infrastructure.
-- Mutation: agentloopgate/mutation. Patch is _parse_patch, Checker is CandidateChecker.check; an
-- early return of check is an error value that holds the verdict.
-- Candidates: agentloopgate/candidates/registry.py. A registry is a dictionary from candidates
-- to their stored check and their events; register and transition return the new registry.
-- Diagnosis: agentloopgate/diagnosis, the classification of failed runs; Bundles groups them into
-- ranked failure bundles.
-- Runtime: agentloopgate/runtime. Usage is usage.py, the events of model calls; Tasks is the ledger
-- of task attempts of tau3_evidence.py, and Tasks/Runs the bounded runs that write it.
-- Ledger: agentloopgate/experiment/ledger.py. Calls reads the ledger of model calls, Channel is
-- _direct_channel_cost, Attempts is ExperimentAttemptLedger. A ledger file is a list of lines.
-- Snapshots: agentloopgate/snapshots/manager.py, activation with its journal, recovery and rollback
-- on a store that holds the snapshots, the live harness with its directories, the activations and
-- the journal. A run of code that writes yields the store after each of its writes and the
-- outcome, and a crash leaves one of these stores. The parents of a path, and what a write to a
-- temporary file leaves when it is cut off, are parameters.
-- Statistics: agentloopgate/experiment/statistics.py, the paired bootstrap on a random generator
-- that is passed as a state.
-- Gates: agentloopgate/gates. Engine is GateEngine.decide, Selection is DualSelector.
-- Examples: each theorem at concrete inputs.
--
-- How the parts interact: a failure bundle limits the budget that Mutation checks a patch against;
-- Candidates registers the patch with the check's result and then follows its state machine;
-- Evaluation turns the runs on the pools of Splits into summaries; the selectors of Gates choose
-- a candidate by them and the engine decides on it by the frozen contract. The records of Schemas
-- are what the parts hand to each other. The ledgers are the evidence of what the runs cost:
-- Channel binds the events of Usage to task attempts. Snapshots makes the candidate that was
-- decided on active, and Statistics compares two summaries for a publication.
--
-- Digests, regular expressions, git, YAML, pathlib and the file system are parameters of the
-- definitions that use them, with no assumption on them; of the random generator and of the
-- ceiling of a float the theorem on the bootstrap assumes what Python documents. Times are texts.
-- Exceptions are error values, named after their messages. All loops run over lists or over a
-- given number of rounds, so no fuel is used in the models of the program; the digit count of a
-- Decimal takes one round more than its value, which is enough as each round divides by ten.
--
-- Not modelled: the command line, the adapters and runtimes of external harnesses, the
-- orchestration of experiments and the reports, which drive processes and files; of the snapshots
-- their creation and their promotion, which read git and evidence files; of the ledger the
-- reconciliation of formal costs; of the statistics the payloads and their digests.
pub mod Base
pub mod Schemas
pub mod Contracts
pub mod Gates
pub mod Splits
pub mod Evaluation
pub mod Mutation
pub mod Candidates
pub mod Diagnosis
pub mod Runtime
pub mod Ledger
pub mod Snapshots
pub mod Statistics
pub mod Examples
