-- ===== src/Tests.antt =====
-- Runs of the functions on concrete data, and applications of the theorems to it.
mod Disk
mod Maps
mod Messages
mod Buffers
mod Registry
mod Tables
mod Commands
mod Output
mod Flash
mod Rtt
mod Loading
