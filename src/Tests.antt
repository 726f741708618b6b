-- ===== src/Tests.antt =====
-- Each theorem of the list in Lib.antt that has arguments, at a concrete input.
mod Wire
mod Keyspace
mod Aggregates
mod Restarts
mod Expiry
mod SortedSets
mod Snapshots
mod Hosts
mod Logs
