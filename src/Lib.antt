-- ===== src/Lib.antt =====
-- A model of ClusterRunner, which splits the tests of a project into atoms, groups them into subjobs
-- and runs those on a cluster of slaves. The master (app/master) takes build requests, prepares each
-- build under a lock of its project, gives its subjobs to slaves, collects their results and answers
-- clients; the slaves (app/slave) run them.
--
-- Errors     the exceptions, as values, and the result of a call that may raise
-- Prelude    lists, numbers, dictionaries and tests that the other modules share
-- Util       app/util: pages of lists, coins, counters, the linked nodes of an ordered set;
--            Util.Queue is the library's queue, UnhandledExceptionHandler is
--            unhandled_exception_handler.py and safe_thread.py, Configuration is conf,
--            EventLog is event_log.py, Retry is the retries of decorators.py, Network is network.py
-- Common     app/common: segments of console outputs, failures and times of a build's artifact
-- Master     app/master: Fsm is build_fsm.py, Subjob is atom.py and subjob.py, Build is build.py,
--            BuildRequestHandler is build_request_handler.py, Grouping is atom_grouper.py,
--            time_based_atom_grouper.py and subjob_calculator.py, Slave is slave.py, Scheduler is
--            build_scheduler.py, Registry is SlaveRegistry of slave.py and build_store.py,
--            ClusterMaster is cluster_master.py with the idle slaves of slave_allocator.py,
--            SlaveAllocator is the rest of slave_allocator.py and build_scheduler_pool.py,
--            JobConfig is job_config.py, ClusterRunnerConfig is cluster_runner_config.py,
--            BuildRequest is build_request.py with util.py, and the way of a request to its thread,
--            Atomizer is atomizer.py
-- ProjectType  app/project_type: project_type.py, and Git is git.py
-- WebFramework  app/web_framework: Handler is cluster_base_handler.py, api_version_handler.py and the
--            checks of secret.py and decorators.py, Master is cluster_master_application.py, Routes is
--            route_node.py and cluster_application.py with the routes of both services
-- Slave      app/slave: ClusterSlave is cluster_slave.py, SubjobExecutor is subjob_executor.py
-- Client     app/client: the runner of a build, build_runner.py
--
-- A build is one record, changed by one function for each method; a method that may raise returns
-- what it leaves behind and the exception. Methods that run in several threads at once hold locks or
-- make single calls of queues in the program, so that any run is a sequence of such steps; where
-- threads meet during the preparation of a build, the steps of the others are a list of interruptions.
-- Builds hold their subjobs in a dictionary and queues hold ids, so that what a queue hands out and
-- what a handler finds are one object, as in the program.
--
-- The library fysom is a parameter, a record of a trigger function with the laws that the
-- documentation of the library states; Master.Fsm.Simple has them. Times are natural numbers of a
-- clock, floats patterns of bits whose arithmetic is a parameter. Recursion is on lists, but for the
-- loop that fills groups of atoms: it has the number of atoms as fuel, and each round takes one.
--
-- The lock of a coin is modelled by the parts of the calls of several threads, in any order.
--
-- A slave is a step relation: requests, and the parts of its threads between two points where another
-- thread may go on. A thread that raises ends there; in the program the whole process then ends.
-- Nodes of the ordered set are addresses of a heap; following them has the number of nodes as fuel.
-- The loop of the allocator has a number of rounds as fuel; as many as slaves are idle are enough.
-- The retries of a call have attempts as fuel; the total delay (in units of the delays) plus two are
-- enough.
--
-- What a slave's service answers to a call is an argument of the call: any sequence of answers is
-- allowed.
--
-- Not modelled: processes, shells, sockets, files and logs, which the program only calls; the text of
-- messages; handlers that only read.
pub mod Prelude
pub mod Errors
pub mod Util
pub mod Common
pub mod Master
pub mod Client
pub mod ProjectType
pub mod Slave
pub mod WebFramework
