-- ===== src/Examples.antt =====
-- Tests at concrete inputs, and the theorems at inputs that meet their hypotheses.
mod Samples
mod Diffs
mod Issues
mod Collected
mod Specs
mod Stores
mod Workers
mod Pools
mod Queues
mod Buckets
mod Tokens
mod Accounts
mod Clients
mod Submissions
mod Scored
mod Reported
mod Waits
