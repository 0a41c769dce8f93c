-- ===== src/Hooks.antt =====
-- src/modules/Hooks.ts: the hook registry. `Registry` holds the handlers, `Order` sorts them,
-- `Handlers` says which of them run, and `Run` runs them.
pub mod Registry
pub mod Names
pub mod Order
pub mod Handlers
pub mod Run
