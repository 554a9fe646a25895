-- ===== src/Store.antt =====
-- simple_a2a_registry/orchestration/store.py: the methods of TaskStore, each as an action on the
-- database. `now` is the value of `int(time.time())` that the method reads.
pub mod Evolves
pub mod Resolve
pub mod Status
pub mod Claim
pub mod Release
pub mod Integrity
pub mod Parents
pub mod Edges
pub mod Create
pub mod Edit
pub mod History
