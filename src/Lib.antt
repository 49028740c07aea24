-- ===== src/Lib.antt =====
-- The Braintrust tracing daemon (bt-daemon): a model of its core logic in Rust, with proofs.
--
-- The daemon receives hook events of coding agents, appends them to a journal, translates them
-- into operations on spans, and delivers these to Braintrust. An event passes these parts:
--
--   Wire          the routes, configurations and process identities that envelopes carry
--                 (bt-daemon/src/wire/envelope.rs)
--   Journal       the write-ahead journal of a session (bt-daemon/src/journal.rs): Writer has
--                 JournalWriter::append, append_control and open_path, Reader JournalReader's
--                 next_record and resume and decode_record, Pi compact_pi_payload and
--                 expand_pi_payload, Collect legacy_collectible, acknowledged_through and
--                 envelope_from_redacted; Wire/Envelope has Envelope and RedactedEnvelope
--   SourceInput   the bounded buffer between the journal and the translator
--                 (bt-daemon/src/pipeline/input.rs): SourceInput::push, take
--   Span          the rows and operations that translators emit, and Translator, the interface
--                 AgentTranslator (bt-daemon/src/translate/mod.rs)
--   TurnLineage   the wrapper that publishes the turn that owns a row
--                 (bt-daemon/src/translate/turn_lineage.rs)
--   Recent        the bounded tables of identifiers, RecentSet and RecentMap
--                 (bt-daemon/src/translate/recent.rs)
--   Roots         the stage that holds a deferred root until a child names it
--                 (bt-daemon/src/pipeline/roots.rs): Roots::process_owned
--   Route         authentication of a route, when two routes are the same, and the overrides of an
--                 invocation (bt-daemon/src/wire/envelope.rs, bt-daemon/src/route.rs)
--   Prepare       what a route adds to shared operations (bt-daemon/src/pipeline/prepare.rs):
--                 Prepare::apply and apply_shared
--   Processor     the chain of span plugins of a route (bt-daemon/src/span_processor.rs):
--                 process_inner, process_isolated, failed_digest, chain_digests
--   Plugins       the stage that runs the chain and holds a route after a failure
--                 (bt-daemon/src/pipeline/plugins.rs): Plugins::configure, process
--   Submission    the stage that hands operations to a sink, and what its failures mean
--                 (bt-daemon/src/pipeline/submission.rs): Submission::process, Failure::classify
--   Routing       one request to the task of a route, through Prepare, Plugins and Submission
--                 (bt-daemon/src/pipeline/routing.rs): the loop of RoutingSink::spawn; Actor is
--                 RoutingSink, the route as a sink
--   Recovery      what a failed stage waits for (bt-daemon/src/pipeline/recovery.rs): Failure
--                 and Recovery::process
--   Consumer      the task that delivers to a route and acknowledges its source
--                 (bt-daemon/src/pipeline/consumer.rs and delivery.rs): Finish has finish and hold,
--                 Loop a turn of the loop of Consumer::spawn
--   Ledger        the record of the spans that a destination has accepted, which the writers of a
--                 session share (bt-daemon/src/delivery_ledger.rs): Journal has
--                 DeliveryLedger::refresh, append, commit and load, Index the queries of
--                 delivery_ledger/origins.rs, Sink and Emission LedgerSink::emit_shared and flush,
--                 WeakOrigins the cache of bt-daemon/src/translate/origins.rs; Stage makes it
--                 the sink that a route submits to
--   Correlation   the registry that finds the parent session of an agent started by another agent
--                 (bt-daemon/src/correlation.rs): State holds the maps, Agents identifies a
--                 session's process, Sessions has observe_session, retire_session and
--                 prune_retired, Spans has observe_ops, Resolve has resolve and confirm_parent,
--                 and Snapshot has active_parent_snapshot and restore_active_parent.
--
-- Prelude holds the shared notation and lemmas. Collections holds maps and sets as lists without
-- repeated keys; Key is the equality of their keys. Tests runs the definitions on concrete values.
--
-- A hash map or set is a list in some order of iteration; where the code looks at the elements of
-- one, a theorem holds for every order since it is stated for every list. Values of serde_json are
-- a parameter, the record Json, whose laws are the documented behaviour of its maps;
-- Tests/JsonValue.antt is an instance. Types of the SDK are parameters too,
-- and so are the sink and the errors of the SDK; a path is a string.
-- The clock is an argument, in milliseconds; digests of files and of settings, and texts of errors,
-- are the record World of Recovery. The 64-bit arithmetic of Recovery and SourceInput is written out.
-- A lock that is held for a whole method makes the method one step; prune_retired, which looks
-- under one lock and changes under another, has two states as its arguments.
--
-- What a plugin's script makes of a row is a parameter of Processor, Scripts, and so are the digests
-- of files. Each worker thread has an engine of its own and a task may move between workers, so
-- Routing takes the engine of every call as an argument.
--
-- A line of a journal is what serde reads of it (Journal.Content) with its length in bytes, so
-- that serde reads what it wrote is assumed, but for a line that a failed write has cut; what is
-- written after such a line is read with it. Equality of two JSON values stands for equal contents.
-- Writer.bytes_of, the length of a line, the files that Collect asks for, and request_config of translate/pi.rs are parameters.
--
-- A turn of Consumer's loop is one step; what the selects of the loop answer is its Event, and a
-- turn with a held failure receives nothing. The state of the sources is a parameter, which only
-- Completion changes. A stop ends the turns between two of them; settings that are replaced during
-- a turn are those of the next one.
--
-- In Ledger the files that the writers share are one record, Disk. A position in the journal is
-- counted in complete lines, not in bytes, and the lines are those that parse. Every method that locks the
-- files does so from its first read of the journal to its last write, so Steps has one step for
-- each; the checkpoint, which is read before, is never written. The inner sink is called after the
-- lock is released, and sees nothing of the files. Write has one case for each point at which the
-- write of a line can fail, and Loading one for each point at which a load can: a checkpoint or a
-- line that does not parse is a failure before rebuild_completed commits. A process that stops in the middle leaves what one of these failures
-- leaves; another writer is then another state in the next step.
--
-- Eviction in Recent runs on fuel, one more than the number of queued identifiers, which is enough:
-- each round takes one identifier out. The other loops are recursion on the lists that they consume.
--
-- Not modelled: asynchronous tasks, files, sockets, the SDK, the agents' own translators, and the
-- command-line tools, which are glue around the parts above; of the ledger, outside its load, the
-- failures of reads, of the lock and of SQLite and lines that do not parse, and the digest that
-- names its files.
pub mod Prelude
pub mod Collections
pub mod Recent
pub mod SourceInput
pub mod Json
pub mod Span
pub mod Roots
pub mod Translator
pub mod TurnLineage
pub mod Wire
pub mod Correlation
pub mod Prepare
pub mod Processor
pub mod Plugins
pub mod Journal
pub mod Recovery
pub mod Route
pub mod Submission
pub mod Routing
pub mod Consumer
pub mod Ledger
pub mod Tests
