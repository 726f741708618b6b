-- ===== src/Command.antt =====
-- src/command: the handlers, by the type of the value that they work on. A handler takes the
-- arguments of `ctx.cmd`, `ctx.now` and `ctx.db`, and returns the reply and the dictionary after it;
-- `ctx.expire` has no state.
pub mod Context
mod Views
pub mod Strings
pub mod Keys
pub mod Lists
pub mod Hashes
pub mod Sets
pub mod SortedSets
pub mod WellFormed
