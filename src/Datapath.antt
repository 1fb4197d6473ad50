-- ===== src/Datapath.antt =====
-- The programs of bpf/ that read the maps which the agent writes.
pub mod Tables
pub mod Qer
pub mod Packet
pub mod Stages
pub mod Uplink
pub mod Ingress
pub mod Egress
