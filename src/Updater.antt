-- ===== src/Updater.antt =====
-- The updater: cli/greffer_cli/updater/ and the version rules of cli/greffer_cli/update.py.
pub mod Gate
pub mod Version
pub mod Engine
pub mod Host
mod Tests
