-- ===== src/Tests.antt =====
-- Runs on concrete inputs, and the theorems at inputs that meet their hypotheses.
mod Inputs
mod Wire
mod Nodes
mod Links
mod Scheduling
mod Pairs
mod Reports
mod Threads
mod Processes
mod Dials
