-- ===== src/Lib.antt =====
-- The core of n4x: the action pool, the trigger runtime, the Experience bridge, the unit of work,
-- the source store, the collector of interned nodes, the activation of Applications and their
-- checkpoints, the host and the inspect pages of backend/n4x.
--
-- The parts and the files that model them:
--   Prelude: shared tests, lists, texts, `Result` for code that may raise, `Exec` for code that
--     changes a state and may raise, with a transaction that restores the state on a raise;
--     Prelude/Outcomes has properties of the state through such code, and Prelude/Integers
--     Python's integers, over the native naturals.
--   Kernel/Jobs, Kernel/Experiences, Kernel/Definitions, Kernel/Sources, Kernel/Json: the records
--     of kernel/models.py and the JSON values that they hold.
--   Graph/Records, Graph/Edges, Graph/Bindings: `RecordCollection` of graph/repositories.py and
--     `RevisionBindings._targets` of graph/bindings.py, over nodes and edges as
--     testing/graph_store.py keeps them.
--   Graph/Store: `InMemoryGraphStore` of testing/graph_store.py: nodes, and edges with properties.
--   Graph/InternGc: `delete_interned_orphans` of graph/intern_gc.py over Graph/Store. Ends has its loop,
--     Live and Keeps what a node needs to stay, by the code's own tests, and Held says it without them.
--   Pool: `ActionPool` of runtime/action_pool.py. The state is the record `ActionPool`; each method
--     body runs under a lock and is one function of the same name. `checkout` drops the lock while it
--     spawns a child, so it is `checkout_begin` and then `checkout_spawned` or `checkout_failed`;
--     Pool/Leases interleaves these and all other methods as steps of a relation.
--   Scheduler: `TriggerRuntime` of runtime/scheduler.py over `TriggerGraph`, the part of the graph
--     that it reads and writes. State has its queries, Jobs the writes of one job, Execute
--     `_execute_job` in its units of work, Admission and Triggers the entry points, Active what
--     `remount` mounts. It is given `actions_run`, the call of the action, which runs outside any
--     unit of work.
--   Access: `ExperienceAccessService` of system/experience_access.py over `AccessGraph`. Guards has
--     its checks, Operations its methods; the services behind it are the interface `Services`.
--   UnitOfWork: `GraphUnitOfWork` and `transactional` of graph/uow.py over the transactions of
--     testing/graph_store.py. A body is a function on the unit of work; what other transactions do is
--     the number of the attempt. The other parts write `transaction` of Prelude/Exec for an outermost
--     unit of work.
--   SourcePatch: `_apply_unified_diff` of source_store/service.py, from the text of a patch to the
--     text of the result: Lines has what it uses of `str`, Header reads hunk headers, Apply is the loop.
--   SourceStore: `SourceStore` of source_store/service.py over Graph/Store, which calls the collector
--     and the patches. State has the graph and `RevisionBindings.resolve`, `tree` and `set_tree`; Trees
--     reads, Files writes one file, Changes has the checks of a batch and Updates applies it, Revisions
--     and Edits have the calls for a revision, Search the search. View, Writes, Contents, Agrees,
--     Listing, Refines and Batches follow the files of a tree through a batch, Bound and Working
--     through the collector after it; Singles, Sound and Outcomes an invariant of the graph through
--     every call.
--   Activation: `activate` and `rollback` of system/activation.py over `ActivationGraph`. State has the
--     graph and the services it is constructed with, the record `Ports`; Switch the units of work that
--     freeze, switch and reject a revision, Service the calls. Consistent and Superseded have the
--     invariant of the active revisions and its change by a switch, Roster which revisions there are,
--     Restored what a restored checkpoint does to both; Units, Services, Calls and Steps carry the
--     invariant through the calls, Returned and Activated say what a call that returns has done.
--   Checkpoints: `create` and `restore` of system/checkpoints.py over the graph of Activation with the
--     checkpoints' rows. State has the payload, Service the calls, Statuses what becomes of the statuses
--     of revisions. Activation calls them through `Ports`; Restores states what it needs of them in the
--     terms of its record `Restored`.
--   Host: `HostLock`, and `Host` with its worker and the enabled revision (host/locking.py,
--     host/supervisor.py, host/worker.py, host/system_graph.py). How a start and how an enabling ends
--     are arguments. Enabled has one call, Steps all calls in any order.
--   Inspect: `page_inspect` of system/inspect_bounds.py.
--   The Samples modules hold small inputs, tests and the theorems at these inputs.
--
-- How the code is read. A unit of work restores the graph when its body raises. A reading of the
-- clock and a fresh identifier are arguments; a time is a number of microseconds in the trigger
-- runtime and of ticks in the pool. Integers are Python's, which do not wrap; where the code takes
-- a maximum with 0, the subtraction of the naturals does. The loops of these parts run over a
-- list or up to a fixed bound (eight attempts of `transactional`), so they need no fuel, but for the
-- loop of the collector: it has a round for each node, and a round deletes a node at least. Hashing,
-- regular expressions, `fnmatch` and the printing of dates are parameters. Messages of errors are kept
-- only where a record stores them.
--
-- Not modelled: processes, pipes and sockets, the Neo4j store, the packages and the request
-- handling of HTTP and MCP; and of the modelled parts, the validation of revisions, APScheduler's
-- own timer, the threads of a child process, deletion from record collections, the excerpts in
-- the patch's errors, and entries of a retry policy that `int` refuses.
pub mod Prelude
pub mod Graph
pub mod Kernel
pub mod Pool
pub mod Scheduler
pub mod Access
pub mod UnitOfWork
pub mod SourcePatch
pub mod Host
pub mod Inspect
pub mod SourceStore
pub mod Activation
pub mod Checkpoints
