-- ===== src/Core.antt =====
-- src/fsw/core: the services on which the flight software runs.
pub mod ModeManager
pub mod SpscQueue
pub mod DataStore
pub mod CommandManager
pub mod TaskScheduler
