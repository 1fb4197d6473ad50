-- ===== src/Examples.antt =====
-- Tests and instances of the theorems, on the running kernel.
mod Start
mod Maps
mod Agent
mod Batches
mod Netlink
mod Link
mod Http
mod Server
mod Datapath
mod Downlink
mod Usage
mod Analysis
mod Bench
mod Pfcp
