-- ===== src/Examples.antt =====
-- Concrete services, data and runs: the theorems at inputs that meet their hypotheses.
mod Stores
mod Sorting
mod Data
mod Scheduling
mod Containers
mod Scaling
mod Routing
mod Requests
mod Running
mod Waiting
mod Devices
mod Tasks
mod TaskRuns
mod Addresses
mod Health
mod Tokens
mod Bots
mod Sending
mod Searching
mod Cleaning
mod Executors
mod Lifecycle
