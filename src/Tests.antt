-- ===== src/Tests.antt =====
-- Runs of the models, and the theorems at concrete data.
mod Heap
mod Ring
mod Sync
mod Pipes
mod Texts
mod Keys
mod Locks
mod Reserves
mod Processes
mod Conds
mod Heaps
mod Screens
mod Calls
mod Sleepers
mod Packets
