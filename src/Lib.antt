-- ===== src/Lib.antt =====
-- Verification of Senlin, a clustering service: the core that decides which action runs, who holds
-- a cluster or a node, how large a cluster gets and which nodes it loses.
--
-- An engine process takes an action (a row of the action table) that is ready, locks the cluster
-- or the node that it works on, checks the policies of the cluster and runs. Actions wait for
-- others by rows of the dependency table; when one ends, those that wait for it are woken or, if
-- it failed or was cancelled, marked in turn. A request to resize is turned into a number of nodes
-- to create or to delete, and a selection names the nodes to delete.
--
-- Db.antt holds the tables of senlin/db/sqlalchemy/models.py. Under it, on the functions of
-- senlin/db/sqlalchemy/api.py: Db/Dependencies.antt (dependency_add, action_check_status),
-- Db/Cascade.antt (action_mark_succeeded, _mark_failed, _mark_cancelled), Db/Locks.antt (the
-- functions on cluster locks and node locks), Db/Actions.antt (action_create to action_delete),
-- Db/Collect.antt (gc_by_engine), and Db/Lifecycle.antt, which takes the functions that write the
-- action table as steps, with the values that the engine gives them. Table.antt is a table with a primary key. One function is one
-- transaction, from the database to the database, so that concurrent engines are sequences of
-- steps. Ids and time stamps are numbers.
--
-- Engine/Locking.antt is senlin/engine/senlin_lock.py with is_engine_dead of
-- senlin/common/utils.py: how an engine locks a cluster or a node by the functions of the
-- database, by force, or by stealing from an engine that has not reported for long.
-- Engine/Results.antt is set_status, signal and _check_signal of senlin/engine/actions/base.py:
-- how the result of an action is recorded, and how a running action learns of a signal.
-- Engine/Cluster.antt is eval_status and the placement by region and zone of
-- senlin/engine/cluster.py; what the details of a node say is an argument.
--
-- Engine/Waiting.antt is _wait_for_dependents, Engine/Execution.antt is execute, with its locks,
-- of senlin/engine/actions/cluster_action.py and senlin/engine/actions/node_action.py, and
-- Engine/Handlers.antt with Engine/Handlers/Resizing.antt holds the handlers of a cluster action
-- that resize and scale. Engine/PolicyCheck.antt is policy_check of senlin/engine/actions/base.py.
-- Engine/Scheduler.antt is start_action of senlin/engine/scheduler.py, and Engine/NodeLife.antt
-- the operations of a node of senlin/engine/node.py. What the code of an action, the policy
-- checks, the other engines and the profile of a node do is an argument there.
--
-- Scaling/Adjust.antt and Scaling/Victims.antt are senlin/common/scaleutils.py, the sizes and the
-- selections of nodes; Node.antt is what these read of a node. Policies/Batch.antt is the plan of
-- senlin/policies/batch_policy.py, Policies/ScalingPolicy.antt is the check of
-- senlin/policies/scaling_policy.py, and Policies/Deletion.antt is the choice of victims of
-- senlin/policies/deletion_policy.py. Policies/Placement.antt is the plan of
-- senlin/policies/region_placement.py and senlin/policies/zone_placement.py, and
-- Policies/Placement/Check.antt their pre_op. The configured maximum number of nodes, the random
-- numbers and the row that a random query returns are arguments.
--
-- Service.antt is the part of senlin/engine/service.py that takes requests on clusters: the tables
-- and the configuration that it reads are arguments, and it answers with the ready action that it
-- creates, or with a rejection. Service/Find.antt is the search of a row by id, name and short id
-- (find of senlin/objects/cluster.py and senlin/objects/node.py), Service/Clusters.antt creates and
-- deletes clusters, Service/Updates.antt updates them and replaces nodes, Service/Membership.antt
-- adds nodes, Service/Removal.antt deletes them, and Service/Sizing.antt resizes and scales. The
-- handlers of the actions check again what the requests have checked; Service/Sizing/Accepted.antt,
-- Service/Sizing/Scaled.antt and Service/Membership/Handled.antt are about the two together.
--
-- Engine/Handlers/Members.antt holds do_add_nodes, do_del_nodes and do_replace_nodes of
-- senlin/engine/actions/cluster_action.py, and Engine/Handlers/Lifecycle.antt the handlers that
-- create, update, delete, check and recover a cluster.
--
-- Schema.antt is the values and the schemas of senlin/common/schema.py, Schema/Resolve.antt the
-- resolution of a value by a schema, and Schema/Check.antt the validation of an operation and of a
-- specification, with the allowed values of senlin/common/constraints.py. What the language and
-- the libraries make of a value, such as int() of a text, is an argument.
--
-- The children of a module prove what their names say: Db/Cascade/Termination, Progress, Reach and
-- Frame; Db/Lifecycle/Soundness and Cleaning; Db/Locks/Holding (the abstract lock), Refinement, NodeLocks and Stuck;
-- Engine/Locking/Outcome and NodeOutcome, Engine/Waiting/Reasons and Ends,
-- Engine/Execution/ClusterLevel, NodeLevel and NodeLevel/Restored, Engine/Handlers/ScaleIn and
-- ScaleOut and NewSize, Engine/PolicyCheck/FirstRefusal, Engine/Scheduler/Launches and Batches,
-- Engine/NodeLife/Settled, Policies/Placement/Filling, Plans and Check/Outcome,
-- Policies/Deletion/Counts and Regions, Engine/Results/Recorded, Engine/Cluster/Health and Zones;
-- Service/Find/Named, Heads, Membership/Adding, Removal/Deleting, Clusters/Created,
-- Updates/Replaced; Engine/Handlers/Members/Joining and Leaving, Members/Departure, Lifecycle/Batches;
-- Service/Membership/Handled; Schema/Resolve/Typed and Sound, Schema/Check/Accepted and
-- Unconstrained; Scaling/Checks, Resize and Percentage. Examples.antt and its children apply the
-- theorems to small databases and clusters.
--
-- Bounds. The recursion of the cascade runs on fuel, one more than the number of dependency rows,
-- which is enough since each level deletes the rows that it follows. The loop over batches runs on
-- the number of nodes, since each batch takes one at least. The wait for dependents runs on a
-- number of polls, of which a third of the seconds until the time-out and one more are enough, and
-- the scheduler on a number of rounds, one more than there are actions that are ready, or get so
-- between its rounds. Sizes and counts are
-- unbounded integers, as in Python; percentages are integers, where the double of the source
-- rounds as the exact quotient does; the shares of a placement are exact quotients too.
--
-- Not modelled: the retries of a transaction after a deadlock, log messages and messages between
-- processes, the creation and loading of actions, the handlers of node actions and those for
-- policies, the rest of the objects for actions, clusters and nodes, the other policies, the
-- requests of the service that are not on clusters, the web interface, and the drivers of other
-- services. Of a request, a number that is not an integer is not modelled.
pub mod Prelude
pub mod Node
pub mod Table
pub mod Db
pub mod Engine
pub mod Scaling
pub mod Policies
pub mod Service
pub mod Schema
pub mod Examples
