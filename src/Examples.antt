-- ===== src/Examples.antt =====
-- Runs of the operations on a small simulated appliance, and the theorems at concrete inputs.
mod Appliance
mod Runs
mod Values
mod Services
mod Bundles
mod CommandLine
mod Scripts
mod Parsing
mod Staging
mod Endpoints
