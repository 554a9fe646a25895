-- ===== src/Tests/Graph.antt =====
-- The dependency graph.
use simple_a2a_registry.Prelude.{
  contains, select, Bool, true, false, none, some, [], ◌∷◌, ◌≡◌, ◌↔◌, refl,
}
use simple_a2a_registry.Models.{TaskStatus, todo, ready, completed}
use simple_a2a_registry.Dag.{detect_cycle, detect_cycle_upwards}
use simple_a2a_registry.Dag.Verdict.{Down, detect_cycle_decides, detect_cycle_agree}
use simple_a2a_registry.Db.{Db, empty_db, find, ok, tx, emit_event, link_exists}
use simple_a2a_registry.Store.Resolve.{resolve_dependencies}
use simple_a2a_registry.Store.Resolve.Outcome.{Resolves, status-resolve_dependencies}
use simple_a2a_registry.Store.Create.{
  create_task, normalize_parents, create_block, check_exist, check_cycles, insert_task,
  insert_links, created_event, new_row, initial_status,
}
use simple_a2a_registry.Store.Edges.{append_link, add_dependency}
use simple_a2a_registry.Store.Edges.Laws.{CanAdd, add_dependency_iff}
use simple_a2a_registry.Store.Integrity.{IsSound}
use simple_a2a_registry.Store.Evolves.{Follows}
use simple_a2a_registry.Store.History.{history, perform, link, history-IsSound, history-Follows}
use simple_a2a_registry.Store.Parents.{validate_dag_integrity}
use simple_a2a_registry.Store.Parents.Laws.{AllFit, validate_dag_integrity_iff}
use simple_a2a_registry.Tests.Samples.{sample, chain, edge, two_creates}

detect_cycle_decides_example :
    (b : Bool) × (detect_cycle chain "a" "c" ≡ some b) × ((b ≡ true) ↔ Down chain "a" "c")
detect_cycle_decides_example = detect_cycle_decides chain "a" "c"

detect_cycle_agree_example : detect_cycle chain "c" "a" ≡ detect_cycle_upwards chain "c" "a"
detect_cycle_agree_example = detect_cycle_agree chain "c" "a"

-- The two answers on a chain: a link that closes it, and one that does not.
detect_cycle_runs :
    (detect_cycle chain "a" "c" ≡ some true) × (detect_cycle chain "c" "a" ≡ some false)
unfolding detect_cycle contains select
detect_cycle_runs = (refl, refl)

abbrev joined : Db
joined = record empty_db {
  tasks = sample "a" completed ∷ sample "b" todo ∷ [];
  links = edge "a" "b" ∷ [];
}

status-resolve_dependencies_example :
    (s : TaskStatus) × Resolves joined.tasks "b" joined.links todo s
    × (find "b" (resolve_dependencies 9 "b" joined).tasks
        ≡ some (record (sample "b" todo) { status = s }))
unfolding find
status-resolve_dependencies_example =
    status-resolve_dependencies 9 "b" joined (sample "b" todo) "b" refl

add_dependency_iff_example :
    ((add_dependency 9 "a" "b" none joined).0 ≡ ok tt) ↔ CanAdd joined "a" "b"
add_dependency_iff_example = add_dependency_iff 9 "a" "b" none joined

history-IsSound_example : IsSound (history ((7, link "a" "b" none) ∷ two_creates) empty_db)
history-IsSound_example = history-IsSound ((7, link "a" "b" none) ∷ two_creates)

abbrev started : Db
started = history two_creates empty_db

history-Follows_example : Follows (history ((7, link "a" "b" none) ∷ []) started) "a" ready
unfolding history perform create_task normalize_parents create_block check_exist check_cycles
    detect_cycle contains select find tx insert_task insert_links created_event emit_event new_row
    initial_status link_exists append_link
history-Follows_example =
    history-Follows ((7, link "a" "b" none) ∷ []) started "a" (sample "a" ready)
      (history-IsSound two_creates) refl

validate_dag_integrity_iff_example :
    (validate_dag_integrity ("a" ∷ []) "b" joined ≡ ok ("a" ∷ [])) ↔ AllFit joined "b" ("a" ∷ [])
validate_dag_integrity_iff_example = validate_dag_integrity_iff "b" joined ("a" ∷ [])
