-- ===== src/Netlink.antt =====
-- The generic-netlink client of results_native/gtp5g_baseline/gtp5g_genl.py.
pub mod Attributes
pub mod Replies
pub mod Socket
pub mod Messages
pub mod Commands
pub mod Link
