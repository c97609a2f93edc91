-- ===== src/Lib.antt =====
-- The core of Aite, an agent that lives in group chats: a model of the Rust crates under
-- core/crates that decide what happens to a message.
--
-- An event of the platform comes to `handle_event` (control), which routes it by the rules R1 to
-- R8: it is dropped, or it is a command, or it goes on with a session, or it opens one. A session
-- has turns and tasks, which the store keeps. A task is queued, dispatched to the worker, steered
-- by follow-ups while it runs, and cancelled. The worker asks the model in rounds, runs the tools
-- that it calls, shows a card, and ends with an answer, a failure or a cancellation. What happens to
-- a task is written into an evidence chain, one file of hash-linked records for each task.
--
-- Base        shared helpers: tests into Bool, lists over the native numbers, sorting, building
--             texts, the monad of fallible calls on a state (Base/Exec), and
--             the words for what is picked from a list (Base/Picking)
-- Contracts   core/crates/contracts/src: session.rs (types, task numbers), events.rs, evidence.rs
--             (canonical JSON and hashes). Contracts/TaskNo/Codec is about task numbers;
--             Contracts/Phases names groups of statuses.
-- Store       core/crates/store/src/lib.rs: `Store.Statements` has the SQL of each method as a
--             function on tables, `Store` the methods on a connection that may be closed or fail.
--             Keys, Numbers, Seen, Orphans, Threads and Turns are about them; Store/Calls has
--             sequences of calls.
-- Evidence    core/crates/evidence/src/writer.rs: append, finalize, verify and the healing of a
--             torn tail, on bytes. Bytes cuts lines; Healing and Crash are about torn tails.
-- Control     core/crates/control/src: Queue (queue.rs), Plane (plane.rs and its ports), Words
--             (the texts of commands), Sessions (sessions.rs, evidence_log.rs; Sessions/Turns has
--             the writing of turns), Dispatch (dispatch.rs), Parallel (its parallel loop), Commands
--             (commands/; Commands/Targets has which task a command means), Routing
--             (routing/mod.rs). Queue/Fifo, Queue/Joining, Writing, Steering, Guards, Races,
--             Flights, Stopping, Duplicates, Cancelling and Settled are about them.
-- Worker      core/crates/worker/src: Desk (the state of a run and its calls), Texts (texts.rs),
--             Fingerprint, Redact, Mime (the files of these names), Final and Checklist
--             (local_tools/), Context and Messages (context/, and what loop.rs does with it), Retry
--             (the model calls of loop.rs), Card (card.rs), Tools (the tool calls of loop.rs), Finish
--             (deliver.rs), Loop (the rounds and `run` of loop.rs). Frame, Leads, Ending, Rounds,
--             Ended, Pairing, Trimming, Retrying, Masked, Transcript, Spares, Closing, Closed
--             and OneCard are about them.
-- Gateway     core/crates/gateway/src: Shapes and Schema (schema.rs), Tokens (`constant_time_eq`),
--             Registry (registry.rs, policy.rs, sandbox_key.rs, the base of tools/mod.rs), Sandboxes,
--             Results and Call (gateway.rs). Settling, Defaults, Tokens/Equality, Permitted and
--             Answers are about them.
-- Evals       core/crates/evals/src/regex_mini.rs: Regex/Syntax, Engine (the matcher), Reading and
--             Parser. Regex/Meaning says what a pattern means; Members, Sound, Complete and Search
--             are about the matcher, Reads and Compiling about the parser.
-- Tests       runs of the theorems on concrete data.
--
-- State is passed on: a method of the control plane is an `Act`, a function from a `World` (the
-- tables, the fields behind the mutexes, what was sent and written so far) to a result and a
-- World. A method keeps the source's name. A call of SQLite, of the platform or of the evidence
-- writer takes the next entry of a list of faults, which says whether it fails. A method of the
-- worker is a `Run`, a function from a `Desk` (the context of a run and the World). It is the `worker`
-- that `dispatch_task` takes as an argument (`as_worker`). Handlers run one at a time in `Routing`;
-- Control/Races takes the critical sections of several handlers in any order, and
-- `write_turn_locked` has the turns that others write between its steps as an argument.
--
-- Bounds and fuel. `write_turn_loop` makes three attempts (`APPEND_TURN_ATTEMPTS`), as the source
-- does. `run_pending` has fuel, one unit for each task. `fill` has the free places as fuel, and
-- each round takes one. `encode_task_no` has the count itself as fuel for its digits, of which
-- there are no more. A run has one round more than its limit of steps. A repetition of a regular
-- expression has its lower bound and the length of the text, and one more, as fuel: each round
-- raises the number of rounds up to the bound, or the position. Its parser has three units for each
-- character and three more. Numbers of turns and tasks
-- are unbounded, where the source has 64 bits and SQLite 63.
--
-- Parameters: the clock, random numbers, SHA-256, serde_json's parser and printer, the crate
-- jsonschema, UTF-8, printing by `{:?}`, what tools, policies and resolvers do when called, what the
-- platform answers to `read_history`, what the model, the gateway and the sandbox answer to the n-th
-- reading, the sum of costs in floating point, the table of alphanumeric characters, and what
-- abandoning a stuck task does to the world.
--
-- Not modelled: SQLite below the statements, migrations, the abandon signal, the errors of reading
-- and writing files (the healing of a torn tail is a function on bytes), the reaper, the ingress's
-- choice of errors to hand back, logs, hooks of features that are switched off (they answer Pass),
-- the five built-in tools of the gateway, the model clients, evaluations but for their regular
-- expressions, protobuf, the edge process, and the command line tools. The evidence port of
-- Control records what is appended and is not tied to the bytes of Evidence. While `run` of a task
-- goes on, no other handler changes the world. The parts of the worker that are placeholders in
-- the source and do nothing (budgets, labels, snapshots, four context blocks, two local tools that
-- are switched off) have no definitions.
pub mod Base
pub mod Contracts
pub mod Store
pub mod Evidence
pub mod Control
pub mod Worker
pub mod Gateway
pub mod Evals
pub mod Tests
