-- ===== src/Engine.antt =====
-- senlin/engine: what an engine does with the tables of the database.
pub mod Locking
pub mod Results
pub mod Waiting
pub mod PolicyCheck
pub mod NodeLife
pub mod Handlers
pub mod Scheduler
pub mod Execution
pub mod Cluster
