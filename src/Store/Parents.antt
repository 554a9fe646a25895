-- ===== src/Store/Parents.antt =====
-- validate_dag_integrity of orchestration/dependency.py.
pub mod Laws
use simple_a2a_registry.Prelude.{
  String, Bool, true, false, not, Option, none, some, List, [], ◌∷◌, is_some, ◌==◌, if◌then◌else◌,
}
use simple_a2a_registry.Dag.{detect_cycle_upwards}
use simple_a2a_registry.Db.{
  Db, Result, ok, raise, find, parent_not_found, self_link, would_create_cycle, search_diverged,
}

-- `if detect_cycle(...): raise ...`, before what follows.
abbrev pub before_cycle : {A : Type 0} → Option Bool → String → Result A → Result A
before_cycle none i rest = raise search_diverged
before_cycle (some true) i rest = raise (would_create_cycle i)
before_cycle (some false) i rest = rest

-- The loop over the parents.
unfoldable pub check_parents : List String → String → Db → Result (Unit {0})
check_parents [] task_id db = ok tt
check_parents (pid ∷ pids) task_id db =
    let rest = check_parents pids task_id db in
    if not (is_some (find pid db.tasks))
    then raise (parent_not_found pid)
    else if pid == task_id
    then raise self_link
    else before_cycle (detect_cycle_upwards db.links task_id pid) pid rest

abbrev pub answer_with : List String → Result (Unit {0}) → Result (List String)
answer_with parent_ids (ok _) = ok parent_ids
answer_with parent_ids (raise e) = raise e

unfoldable pub validate_dag_integrity : List String → String → Db → Result (List String)
validate_dag_integrity parent_ids task_id db =
    answer_with parent_ids (check_parents parent_ids task_id db)
