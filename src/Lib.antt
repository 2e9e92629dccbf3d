-- ===== src/Lib.antt =====
-- Unifold: models of four parts of the program that keep a document or derive from it: the collaboration
-- service of packages/collaboration, the store and the outbox of packages/control-plane, the rules of
-- packages/rules, and the calendar dates of packages/contracts. The parts do not call one another; the
-- JSON values of Contracts/Json are common to them.
--
-- The collaboration service keeps the revisions of a document on branches, takes proposals to change it
-- and lets reviewers approve them.
--
-- A request enters `execute` (Collaboration/Service, reference.ts), which checks the actor, answers a
-- repeated submission or undo from its record, and runs one of six operations: submitting,
-- approving, commenting (Collaboration/Proposals and Collaboration/Reviews, proposal-operations.ts
-- and proposal-context.ts), publishing, undoing and presence (Collaboration/Revisions,
-- revision-operations.ts). These change one state (Collaboration/State, reference-state.ts) with
-- the help of:
--   Collaboration/Pointer     pointer.ts        JSON pointers, the paths of an operation
--   Collaboration/Conflict    conflict.ts       the conflicts of a proposal with intervening revisions
--   Collaboration/Patch       patch.ts          applying a patch that leaves the framework's members
--   Collaboration/Governance  governance.ts     who may approve, and what may be published
--   Collaboration/EventLog    event-log.ts      the bounded log of events and its resumption
--   Collaboration/Presence    presence.ts       who looks at a branch
--   Collaboration/Support     reference-support.ts  results and branch policies
--   Collaboration/Types, Requests   types.ts    the data of the protocol
--   Contracts/Json            packages/contracts/src/json.ts   JSON values
-- All these paths are below packages/collaboration/src unless they say otherwise. The names are those
-- of the source with underscores: `undoRevision` is `undo_revision`. Below these modules stand their
-- laws. State/Ledger specifies the service by the moves that its documents can take, State/Preserve
-- is about what the moves keep, and Moves about the moves that each operation makes.
-- Collaboration/Fixtures holds data for the tests, which stand in the modules called Tests.
--
-- The outbox of packages/control-plane (ControlPlane/Outbox, reference-outbox.ts and
-- outbox-policy.ts) delivers messages to workers, which lease, acknowledge and release them; a command
-- that the policy rejects throws, which is `none`.
--
-- The store of packages/control-plane (reference-store.ts, reference-store-helpers.ts) keeps for each
-- tenant its documents, effects, audits and an outbox: ControlPlane/Store has the state and the
-- commits, Effects the effects, Delivery the calls that reach the outbox, Recovery the backups, Types
-- the data of types.ts and ports.ts, and Calls the calls in any order. Below them, Turns has what a
-- call does to its tenant. `createBackup` waits for its digest in the middle and so is two calls,
-- `begin_backup` and `finish_backup`. A method that throws answers `none`. The fingerprint, the order
-- of `localeCompare` and the text of an instant are parameters (`Ports`). The fingerprint port is taken
-- to answer equal values alike, with a digest or by rejecting them; of which values it rejects, and
-- which digests it gives, nothing is assumed.
--
-- The rules of packages/rules derive parts of a document's state from others. Rules/Dependencies
-- (dependencies.ts) has the places that a rule reads and writes, Rules/Graph and Rules/Layers
-- (dependency-graph.ts) the graph of the rules and its layers, Rules/Compiler (compiler.ts) the program
-- that is made of the rules that passed the validation, Rules/Evaluator and Rules/Evaluation
-- (evaluator.ts, command.ts) the rules that a change affects and their evaluation through a port, and
-- Rules/Types the data. The key of a dependency is the pair that the source prints. The port,
-- the JSON Logic engine and `JSON.stringify` are parameters; each call of the first two may throw, and
-- a read leaves the state behind the port as it is. The search for
-- the affected rules has as fuel the number of ids that it starts with and that are downstream of a
-- rule, the loop of `pointerLineage` the length of the pointer, since every round shortens it, and
-- that of `topologicalLayers` the sum of the counts of producers and one more, since every later round
-- needs a count that has come down to 0.
--
-- Contracts/Date (packages/contracts/src/date.ts) has the calendar dates of a date field, their day
-- numbers and the field's constraints. Its day numbers are those of the source with 366 added, so that
-- no subtraction goes below 0; only differences of them are used. A step is a natural number.
--
-- A state is passed on explicitly. An object that the source changes in place is the value at its key
-- in the state's map. Strings are lists of code units, instants are their milliseconds, and the
-- clock is a function of the number of its readings. The host's validation, the RFC 6902 patcher and
-- the JSON canonicalizer are parameters (`Env`), of which nothing is assumed.
-- The walk over the ancestors of a revision has fuel, one more than the number of the last revision,
-- which is enough since the numbers of the revisions fall along it.
--
-- Not modelled: the checks of unknown values of validation.ts and json-safety.ts, whose outcome
-- `execute` takes, freezing and cloning, which do nothing to immutable values,
-- the validation of rules, whose diagnostics the compilation takes, the services, transports and SQLite
-- stores around the control plane, which are host code, and the other packages.
pub mod Prelude
pub mod Contracts
pub mod Collaboration
pub mod ControlPlane
pub mod Rules
