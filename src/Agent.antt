-- ===== src/Agent.antt =====
-- loader/agent.py, over the interface of `Maps`.
pub mod Encoders
pub mod Layout
pub mod Tables
pub mod Downlink
pub mod Slots
pub mod Sessions
pub mod Frame
pub mod Modify
pub mod Batches
pub mod Metrics
pub mod Usage
pub mod Bpftool
pub mod Http
pub mod Server
