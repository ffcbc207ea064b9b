-- ===== src/Lib.antt =====
-- greentic-sorx: the deployment registry, the store of records, the migrations, the policies, the calls of
-- endpoints, the router with its tools, the ontology graph, the store on key-value transactions, the views
-- of managers, the webhook of published packs and the check of providers.
--
-- The program (crates/greentic-sorx-core/src/) runs systems of record that are delivered as packs. Twelve
-- parts of it are modelled, those with a state as functions on it.
--
-- Deployment (deployment.rs). A `DeploymentRegistry` lists deployments, aliases, webhook deliveries,
-- validation reports and audit events. Types holds its records, Naming the spelling of ids and paths,
-- Checks and Create `create_deployment`, Validation the gate that a validation report has to pass, Lookup
-- the reads and updates by id, Registry the promotions, aliases, rollback, retirement and deliveries, with
-- the methods' names. A method is an `Action` (Prelude/Actions): it takes the registry and returns a
-- result with the registry that it leaves, so what was written before an error stays written. Operations
-- lists the public methods that write, and `Reachable` the registries that their calls lead to.
--
-- Store (provider.rs and providers/memory.rs). `MemoryStoreProvider` keeps records by collection and id,
-- the records of creations with an idempotency key, event streams, external references and evidence. Types
-- and Keys hold its records and keys, Unique the search for a conflict on a unique index, Query filters
-- and orders, Memory create, get, update, query and delete, Events the canonical operations, Calls the
-- sequences of calls that write. The lock is held throughout an operation, so each operation is one step.
-- Maps are association lists in the order of their keys. A version is taken modulo 2 ^ 64, as in a release
-- build.
--
-- Migration (migration/, and `evaluate_pending_migrations` of deployment.rs). Plan holds what a pack
-- declares and the gate, Runner `run_one` and the backfills, Backend the traits of the store and the
-- ledger as a record of operations with the ledger's laws, Ledger the file ledger, Ledger/Local its
-- combination with the store in memory, Apply `apply_pending_migrations`.
--
-- Policy (policy.rs, and the risk levels of model.rs). Policy holds the modes of risk levels and `decide`,
-- of an endpoint's risk and approval requirement, Policy/Ontology `decide_ontology`.
--
-- Runtime (runtime.rs; model.rs, audit.rs, approval.rs, generic_runtime.rs and provider.rs for what it
-- hands around). `SorxRuntime::invoke` takes a call through its checks, hooks and policy to a store. Types
-- holds the endpoints, calls and results, Hooks the runtime and what it calls, as actions on a world that
-- is a parameter, Input the renaming of fields, the schema check and the patch of a value, Access the
-- roles and `decide_authorization`, Labels the texts and outputs, Perform the operations on a store,
-- Invoke the call itself, stage by stage. Command holds the commands: Paths and Context what their
-- templates read, Resolve and Guard the values of templates and conditions, Records the steps on records,
-- Steps the loops and `execute_command`. A template is first taken apart into the actions that resolve its
-- parts, so that the recursion is structural.
--
-- Router (router.rs, with the parsers of model.rs). Fields reads the fields of an endpoint's metadata,
-- Commands the commands with their steps, taken apart with their fields so that the recursion is
-- structural, and Endpoints the endpoints of a gateway, with their defaults and the strict check of risks,
-- and builds the router, whose endpoints are those that the runtime finds.
--
-- Mcp (mcp.rs). The list of tools that metadata describes over a router, and `call_tool`, which calls the
-- runtime.
--
-- Ontology (ontology_graph.rs). Graph holds the concepts and relationships, their construction and their
-- lookups, Walk the search for paths between two concepts within a depth, Neighbors the relationships
-- around a concept within a depth.
--
-- Kv (providers/kv.rs). The operations of the store on an ordered key-value transaction, which the drivers
-- of databases run. Keys holds the keys as lists of bytes and the ranges of their children, Records the
-- search for conflicts, the entries of unique indexes and the counter of ids, Operations create, get,
-- update, query and delete, Events the event streams, external references, evidence and the migration
-- ledger. The transaction is a parameter (`KvTxn`), with the laws of its reads and writes in `KvLaws`, and
-- so is what serde makes of a record (`Codec`, `EventCodec`). The accessors and comparisons that kv.rs
-- repeats from memory.rs are those of Store.
--
-- Manager (manager/policy.rs, manager/filter.rs and the types of manager/view_model.rs). Policy holds the
-- decisions, View the views of a system of record, Filter what the policies leave of a view, with the
-- hints on what they took away.
--
-- Webhook (ghcr_webhook.rs). Types holds the configuration, the metadata and the outcome, Signature the
-- HMAC of a body and the comparison of signatures, Handler `handle_ghcr_published_webhook`: its checks up
-- to the resolved artifact (`admit`), then the creation and the record of the delivery on the registry.
--
-- Compatibility (provider_compatibility.rs). The requirements of an input are resolved over the configured
-- providers, each to a binding or an issue, and sorted into a report. Of the configuration only the map of
-- providers is read.
--
-- They meet where a call asks the policy and hands requests to a store, where migrations query and update
-- the store, key the ledger by the namespace's prefix, and ask the registry's gate, where a tool leads
-- through the router to a call, and where a webhook creates a deployment. Json models `serde_json::Value`,
-- whose floats are their bits and compare as finite floats do, Error `SorxError`. Every loop is structural
-- recursion on a list, a text, a value, or the depth or the number of tries of the source, but for that of
-- `next_auto_id`, whose source runs until an id is free: `seek_id` has a number of rounds, and
-- `Kv.Operations.AutoId.seek_id_ends` says when they are enough.
--
-- Parameters, for what is outside of the program: the transactions of a database and the bytes of serde
-- (Kv/Records); the file that the store is written to, the debug print in an error, the order of two
-- numbers as floats and the text of a value (Store/Types, `Host`); the ledger file, with the law that what
-- was written is read back (Migration/Ledger); the audit sink, the observer, the control hook, the
-- approval broker, the stores, the event sink with its envelopes, and the clocks (Runtime/Hooks, `Hooks`);
-- the nonce counter, SHA-256 and sums of floats (Runtime/Command/Context); what serde reads of a command's
-- constraints and orders (Router/Commands, `GatewayCodec`); SHA-256, serde and the resolver of references
-- for a webhook (Webhook/Types, `WebhookHost`).
--
-- Not modelled: the route table and the files of the registry, the opening of a store file and its schema
-- versions, a poisoned lock, the drivers of external databases around kv.rs, decoding by serde, the
-- administration hooks and the builders of the runtime, the assembly of packs, traffic splits and
-- providers at startup (generic_runtime.rs, startup.rs), the brokers and sinks of the crate, the manager
-- but for its filter, the pack library, the command line and the event bridge.
pub mod Prelude
pub mod Json
pub mod Error
pub mod Deployment
pub mod Store
pub mod Migration
pub mod Policy
pub mod Runtime
pub mod Router
pub mod Mcp
pub mod Ontology
pub mod Kv
pub mod Manager
pub mod Webhook
pub mod Compatibility
