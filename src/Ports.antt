-- ===== src/Ports.antt =====
-- Host ports of L4 instances: apps/utils/docker/l4_ports.py, apps/utils/greffon/sticky_ports.py
-- and the allocation in `get_greffon_info` of apps/utils/greffon/repository.py.
pub mod Free
pub mod Daemon
pub mod Pending
pub mod Sticky
pub mod Allocate
mod Tests
