-- ===== src/Process.antt =====
-- process_manager: the executables that a robot runs.
pub mod Executable
pub mod Tests
