-- ===== src/Tests.antt =====
-- Tests: the theorems of the library at concrete inputs.
mod Samples
mod Graph
mod Flows
mod Shares
mod Life
mod Lock
mod Sweeps
mod Rows
mod Tokens
mod Limits
mod Workflows
