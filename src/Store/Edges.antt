-- ===== src/Store/Edges.antt =====
-- TaskStore.add_dependency and remove_dependency.
pub mod Laws
use simple_a2a_registry.Prelude.{
  ℕ, String, Bool, true, false, ◌&&◌, not, Option, none, some, List, [], ◌∷◌, ◌++◌, select, is_some,
  ◌==◌, if◌then◌else◌,
}
use simple_a2a_registry.Models.{Task, TaskLink}
use simple_a2a_registry.Dag.{detect_cycle}
use simple_a2a_registry.Db.{
  Db, Action, Result, ok, raise, tx, find, joins, link_exists, task_not_found, parent_not_found,
  self_link, would_create_cycle, search_diverged,
}
use simple_a2a_registry.Store.Resolve.{resolve_dependencies}

-- `if self._detect_cycle(...): raise ...`, around what follows.
abbrev pub unless_cycle : {A : Type 0} → Option Bool → String → Action A → Action A
unless_cycle none i rest db = (raise search_diverged, db)
unless_cycle (some true) i rest db = (raise (would_create_cycle i), db)
unless_cycle (some false) i rest db = rest db

set_condition : String → String → Option String → List TaskLink → List TaskLink
set_condition parent_id child_id condition [] = []
set_condition parent_id child_id condition (l ∷ ls) =
    (if joins parent_id child_id l then record l { condition = condition } else l)
    ∷ set_condition parent_id child_id condition ls

-- `UPDATE task_links SET condition=? WHERE parent_id=? AND child_id=?`
unfoldable pub update_condition : String → String → Option String → Db → Db
unfolding set_condition
update_condition parent_id child_id condition db = record db {
  links = set_condition parent_id child_id condition db.links;
}

-- `INSERT INTO task_links (parent_id, child_id, condition)`
unfoldable pub append_link : String → String → Option String → Db → Db
append_link parent_id child_id condition db = record db {
  links =
      db.links ++ record { parent_id = parent_id; child_id = child_id; condition = condition } ∷ [];
}

-- The writes behind the checks.
unfoldable pub write_edge : String → String → Option String → Db → Db
write_edge task_id parent_id condition db =
    if link_exists parent_id task_id db.links
    then update_condition parent_id task_id condition db
    else append_link parent_id task_id condition db

unfoldable pub add_edge : ℕ → String → String → Option String → Action (Unit {0})
add_edge now task_id parent_id condition db =
    (ok tt, resolve_dependencies now task_id (write_edge task_id parent_id condition db))

unfoldable pub add_block : ℕ → String → String → Option String → Action (Unit {0})
add_block now task_id parent_id condition db =
    if not (is_some (find task_id db.tasks))
    then (raise (task_not_found task_id), db)
    else if not (is_some (find parent_id db.tasks))
    then (raise (parent_not_found parent_id), db)
    else if task_id == parent_id
    then (raise self_link, db)
    else unless_cycle (detect_cycle db.links task_id parent_id) parent_id
        (add_edge now task_id parent_id condition) db

unfoldable pub add_dependency : ℕ → String → String → Option String → Action (Unit {0})
add_dependency now task_id parent_id condition = tx (add_block now task_id parent_id condition)

-- `DELETE FROM task_links WHERE parent_id=? AND child_id=?`
unfoldable pub delete_link : String → String → Db → Db
delete_link parent_id child_id db = record db {
  links = select (λ l. not (joins parent_id child_id l)) db.links;
}

-- `removed` is `rowcount > 0`: a link with these ends was there.
unfoldable pub remove_dependency : ℕ → String → String → Action Bool
remove_dependency now task_id parent_id db =
    if link_exists parent_id task_id db.links
    then (ok true, resolve_dependencies now task_id (delete_link parent_id task_id db))
    else (ok false, delete_link parent_id task_id db)
