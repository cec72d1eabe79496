-- ===== src/Lib.antt =====
-- The agent runtime: a library that models the core of the runtime that schedules agents and their
-- tasks, and states what holds of it.
--
-- Parts. An agent has a control block with a table of legal transitions and a timeline (Agent, of
-- aruntime/core/acb.py and lifecycle.py). A task has a control block, whose fields the task repeats,
-- and attempts (Task, of aruntime/core/models.py). The kernel scheduler holds tasks in queues and a
-- graph of dependencies, asks the daemon's resource checker, and moves tasks by their own
-- transitions (Kernel, of aruntime/scheduler/kernel.py). The resource monitor grants leases
-- (Resource, of aruntime/resource). The context
-- manager keeps what tasks share (Context, of aruntime/context). The message router keeps mailboxes between agents, under one lock
-- (Router, of aruntime/comm/router.py and the mailbox table of aruntime/daemon/store.py). Schedulers
-- has the FIFO, DAG and resource-aware schedulers (aruntime/scheduler/fifo.py, dag.py,
-- resource_aware.py), where Failing and Sorting have fail_task and topological_sort, Faults the restart budget of a worker and the recovery of stored tasks
-- (aruntime/daemon/fault_service.py, recovery_service.py), Planning the choice of coder tasks and the
-- routes of the incident repair workflow (applications/incident_repair/routing.py).
-- Workflow has
-- the repairs and the integration of patches (aruntime/workflow/service.py), where Patches has the integration and Accepted says which patches git takes. Daemon has what the
-- daemon writes of an agent in one run: Agents when it dispatches, isolates, kills or restarts it, Rounds when a
-- task is submitted or ends and when a worker is lost (aruntime/daemon/main.py). Plans has the validation of the planner's and the coders' plans and the tasks made of them
-- (aruntime/planner, routing.py). Prelude has what they share; Examples has tests and the theorems applied to concrete data.
--
-- Correspondence. A method is a function of the same name (without a leading underscore) on the
-- record of its object's fields. A method that may raise returns a Result beside the state, which
-- keeps what was written before the raise (Prelude/Result). Identifiers and names are numbers, 0 for
-- the empty text; the time of a call is an argument, in microseconds, so that rounded milliseconds
-- and seconds are exact. Queues hold identifiers, and a table holds one task object under each. A
-- set is a list in order of insertion.
--
-- Kernel: Defs has the state, Order the policies, Agents the matching, Queues the queues and
-- enqueueing, Search and Dependencies the check for cycles and new dependencies, Dispatch the loop of
-- dispatch_ready, Finish completion and failure. Safety, Moves, Kept, Turn, Dispatched, Links and
-- History carry the invariant of the queues, Limits the loop's end, Sorted and Served the queue's order,
-- Paths the search's meaning.
--
-- Context: Data has the context and its snapshots, Views the merged parts and the cache keys, Compress
-- compression and rollback, Recording and Manager record_task_context, Building build_agent_context.
-- Runs has the manager's runs; Lists, Window, Stored, Snapshots, Versions, Tokens, Merging, Layers,
-- Important and Limits the proofs.
--
-- Plans: Search has the depth-first search that both validations use, Validator, Materializer and
-- Coders the code on both sides of it; Visits, Settled, Ranks and Acyclic say what the search accepts,
-- Maps, Accepted, Children, CoderChecks and Progress what follows for a plan.
--
-- Fuel. The depth-first search has one more than there are nodes, since each nested visit marks another
-- node as being visited. The loop of dispatch_ready has a turn for each ready task, and each turn takes one away. The
-- loop of _has_dependent_path has the length of the stack and the dependents of the nodes not yet
-- seen, which fall in each turn. fail_task of the DAG scheduler has one more than there are nodes that
-- have not failed, since each nested call fails another. The loop of topological_sort has one more than there are nodes: the
-- positive degrees and the length of the queue, together, fall with each turn.
--
-- Not modelled: input and output (HTTP, sockets, SQLite, processes, cgroup files, git), the daemon's
-- other handlers, the planner's parser and prompts, send_event of the router, and the conversions to dictionaries; psutil's
-- readings, git's answers and the resource checker are arguments. Amounts of resources, in a request and in the
-- ranking of the kernel scheduler, are whole numbers that are not negative; the code takes other numbers too. The daemon's
-- agents are followed over one run: what a start makes of the stored agents is left out.
pub mod Prelude
pub mod Agent
pub mod Task
pub mod Resource
pub mod Router
pub mod Kernel
pub mod Schedulers
pub mod Planning
pub mod Faults
pub mod Plans
pub mod Daemon
pub mod Workflow
pub mod Examples
pub mod Context
