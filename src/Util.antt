-- ===== src/Util.antt =====
-- app/util: small helpers that the services share.
pub mod Pagination
pub mod Queue
pub mod SingleUseCoin
pub mod Counter
pub mod OrderedSet
pub mod Configuration
pub mod UnhandledExceptionHandler
pub mod EventLog
pub mod Retry
pub mod Network
