-- ===== src/Examples.antt =====
-- The theorems at concrete inputs, on the servers in memory.
mod Delivery
mod Storage
mod Conversion
mod Entries
mod Rates
mod LogLines
mod Fleets
mod Queries
mod Requests
mod Process
