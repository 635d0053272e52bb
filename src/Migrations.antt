-- ===== src/Migrations.antt =====
-- On-disk state migrations: apps/utils/ops_migrations/ (base.py, registry.py, ledger.py,
-- runner.py) and `_apply_ops_migrations` of app/cli.py.
pub mod Base
pub mod Registry
pub mod Ledger
pub mod Runner
pub mod Batch
mod Tests
