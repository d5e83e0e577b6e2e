-- ===== src/Master.antt =====
-- app/master: builds, their subjobs, the slaves and the scheduling between them.
pub mod Fsm
pub mod Subjob
pub mod Atomizer
pub mod Grouping
pub mod Build
pub mod BuildRequestHandler
pub mod Slave
pub mod Scheduler
pub mod SlaveAllocator
pub mod JobConfig
pub mod ClusterRunnerConfig
pub mod Registry
pub mod ClusterMaster
pub mod BuildRequest
