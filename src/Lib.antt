-- ===== src/Lib.antt =====
-- HomeMagic is a local home automation service in Rust. Its domain crate (crates/homemagic-domain)
-- holds the data and the rules of devices, commands and Matter controller operations; its
-- application crate (crates/homemagic-application) decides which commands may run and drives them
-- through storage and adapters. This library models the rules of the domain and, of the
-- application, the reconciliation of discovered devices, the command policy and limits, the command
-- service with the dispatch control of Matter, the in-memory repository, the evaluation of automation
-- conditions, and the recovery of scheduled automation work and of lost Matter subscriptions.
--
-- How the parts interact: a request for a command names a payload, an actor and a target. The
-- envelope of the command is validated (Command), the policy decides on it (Policy) from the grants
-- of the actor (Actor), the freshness of the target's state (Freshness), the risk class of its
-- capability (Capability) and the capacity that the limits report (Limits). The durable aggregate
-- of the command then passes through its state machine (Command), driven by the service that
-- dispatches it to an adapter (Service). Reports of a device move its lifecycle and availability
-- (Lifecycle), its timestamps (Timestamps) and the observations of its capabilities
-- (Observation), and failures open repairs (Repair). Discovery brings candidates, which are
-- reconciled with the durable device records (Device, Reconciliation) and give rise to events
-- (Event). Matter nodes and fabrics are managed by durable operations with phases of their own,
-- have a projected state, and are read through subscriptions that are recovered when they are lost
-- (Matter). The records and the events of all this are written to a repository, from which readers
-- take the events page by page (Repository). Automations have states of their own
-- (Automation), the scheduler admits their occurrences and starts their runs (Scheduler), and the
-- steps of a run depend on conditions (Evaluation).
--
-- The files and the code they model, function by function under the names of the source:
--   Lifecycle     crates/homemagic-domain/src/lifecycle.rs: DeviceLifecycle, Availability
--   Timestamps    crates/homemagic-domain/src/lifecycle.rs: DeviceTimestamps
--   Freshness     crates/homemagic-domain/src/lifecycle.rs: FreshnessPolicy, Freshness
--   Capability    crates/homemagic-domain/src/capability.rs: RiskClass, CapabilityDescriptor, and
--                 CapabilitySnapshot (Capability/Snapshot)
--   Actor         crates/homemagic-domain/src/command.rs: Actor, ActorKind, ActionKind, CommandGrant
--   Policy        crates/homemagic-application/src/policy.rs: PolicyEvaluator, and the policy
--                 input, decision and reasons of crates/homemagic-domain/src/command.rs
--   Limits        crates/homemagic-application/src/policy.rs: CommandLimitConfig, CommandLimits
--   Command       crates/homemagic-domain/src/command.rs: IdempotencyKey, CommandPayload,
--                 CommandEnvelope, CommandState, CommandAggregate
--   Matter        crates/homemagic-domain/src/matter/operation.rs (Matter/Operation) and
--                 crates/homemagic-domain/src/matter/state.rs (Matter/State), and
--                 crates/homemagic-application/src/matter_subscription.rs (Matter/Subscription) with
--                 the stored subscriptions of crates/homemagic-application/src/matter_repository.rs,
--                 the requests of crates/homemagic-application/src/matter_controller.rs and the loss
--                 reasons of crates/homemagic-domain/src/matter/event.rs
--   Device        crates/homemagic-domain/src/device.rs
--   Event         crates/homemagic-domain/src/event.rs
--   Automation    crates/homemagic-domain/src/automation.rs: the states and their transitions
--   Scheduler     crates/homemagic-application/src/automation_scheduler.rs: process_recovery with
--                 admission, cancel_for_restart and create_run, over the runs, occurrences, timers
--                 and trace steps of crates/homemagic-domain/src/automation.rs and the data of
--                 crates/homemagic-application/src/automation_repository.rs
--   Reconciliation  crates/homemagic-application/src/reconciliation.rs: update_record and what it
--                 emits (Reconciliation/Record), reconcile and its loop (Reconciliation/Rounds)
--   Repair        crates/homemagic-domain/src/repair.rs
--   Observation   crates/homemagic-domain/src/observation.rs
--   Repository    crates/homemagic-application/src/memory.rs: MemoryFoundationRepository, with the data
--                 of crates/homemagic-application/src/ports.rs (FoundationSnapshot, FoundationWrite,
--                 CursorEvent, EventPage) and crates/homemagic-domain/src/configuration.rs
--   Evaluation    crates/homemagic-application/src/automation_evaluator.rs, with the values and resolved
--                 conditions of crates/homemagic-domain/src/automation.rs
--   Service       crates/homemagic-application/src/command_service.rs: CommandService, the stored
--                 transitions up to dispatch_committed in Service itself, what it holds and calls
--                 (Service/Boundary), the functions on a target (Service/Target), continue_received
--                 and dispatch (Service/Request), execute, get, list, audit and cancel
--                 (Service/Entry), recover and approve_unlock (Service/Recovery), and the sink that
--                 turns audits into events (Service/Projection)
--   Service/Matter  crates/homemagic-application/src/matter_commands.rs: MatterCommandDispatchControl,
--                 register_desired (Service/Matter/Registration), commit_dispatch and
--                 authorize_unlock (Service/Matter/Admission), with the data of
--                 crates/homemagic-application/src/matter_repository.rs; it fills the interface
--                 CommandDispatchControl of Service/Boundary
--   Prelude       what the others share: tests on numbers, lists, signed numbers, ordered maps,
--                 results and equality
-- Below each of them, Examples holds runs at concrete inputs, and the other files the proofs; the runs
-- of the whole command service are in Service/Runs, in a house that Service/Household and
-- Service/House make up.
--
-- Modelling choices. A method that takes `&mut self` is a function from the old value to the new
-- one, with Result for its errors; an error leaves the old value, which the histories (attempts,
-- reports, requests, run) write out. An instant is the number of nanoseconds since the earliest
-- instant that can be represented. An identity (of a device, an actor, a command) is an opaque
-- token that only is compared, and a number stands for it; where a fresh one is drawn or one is
-- derived by hashing, it is an argument. A text is the list of its Unicode scalar values. A set
-- that only is asked what it contains is a list, an ordered map the list of its entries in
-- increasing order of its keys. Signed thresholds are integers, and unsigned machine numbers are
-- natural numbers with the saturation or the overflow check of the source written out.
--
-- Code outside the repository is a parameter: the semaphore of the limits is an interface with its
-- documented laws, the addition of seconds to an instant (checked_add_signed) an argument with its
-- documented meaning, a JSON value a type with a decidable equality, and time zones, the parsing of
-- times and the comparison of decimals an interface (Evaluation.Library), the calendar and the hash
-- of the retry delays another (Matter.Subscription.Steps.Library), and the derived identity of a
-- device, the equality of records and fresh identities a third (Reconciliation.Library). What the
-- command service calls is a set of interfaces over an opaque state: the stored transitions, the audit sink,
-- the adapter, the confirmation and the clock (Service.Services), the repositories, the limits with
-- the drop of their permits, the encoding of a request and its digest (Service.Boundary.Stores), the
-- dispatch control, and the stores of the latter (Service.Matter.MatterStores). Of some of them it is
-- assumed that they hand nothing to the adapter, and of the store of actors that it answers for the
-- actor it is asked for (ServicesLaws, StoresLaws and MatterLaws). The repository and the clock of
-- the scheduler are another interface (Scheduler.Services), of which nothing is assumed.
--
-- Bounds and fuel. Loops are structural recursion, but for the printing of a decimal number: it has
-- the number itself plus one as fuel, and each step divides by ten, so the fuel is not used up. The
-- registration of a desired state is attempted four times, as in the source. The
-- reader of pages (Repository/Paging) is no code of the program: it reads as many pages as it is
-- given.
--
-- Not modelled: asynchronous execution, where one call of a locked operation is one step, also that
-- of the limits, which take the slot of a device only after they have given up their lock; the
-- SQLite storage, the JSON-RPC transport, the Shelly and Matter adapters and the secret stores;
-- serialization, but for the checks that deserialization makes; the documents of automations with
-- their compiler and engine, the materialization and the catch-up of schedules, and the workflows of
-- Matter nodes and fabrics.
pub mod Prelude
pub mod Lifecycle
pub mod Timestamps
pub mod Freshness
pub mod Capability
pub mod Actor
pub mod Policy
pub mod Limits
pub mod Command
pub mod Matter
pub mod Repair
pub mod Repository
pub mod Observation
pub mod Evaluation
pub mod Service
pub mod Automation
pub mod Device
pub mod Event
pub mod Reconciliation
pub mod Scheduler
