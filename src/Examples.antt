-- ===== src/Examples.antt =====
-- The theorems at concrete inputs.
mod Regions
mod FormatTable
mod Tasks
mod Allocations
mod Forks
mod Variables
mod Graphs
mod Tools
mod Calls
mod Orders
mod Devices
mod Programs
mod Stencils
