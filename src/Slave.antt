-- ===== src/Slave.antt =====
-- app/slave: the service that runs the subjobs of builds on its executors.
pub mod SubjobExecutor
pub mod ClusterSlave
