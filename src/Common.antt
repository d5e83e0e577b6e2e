-- ===== src/Common.antt =====
-- app/common: what master and slave share.
pub mod ConsoleOutput
pub mod BuildArtifact
