-- ===== src/Tests/Rows.antt =====
-- New tasks.
use simple_a2a_registry.Prelude.{[], ◌∷◌, ◌≡◌, refl}
use simple_a2a_registry.Models.{Task, todo, completed}
use simple_a2a_registry.Db.{Db, find, parent_not_found, tx}
use simple_a2a_registry.Store.Create.{
  NewTask, create_task, plain, normalize_parents, create_block, check_exist,
}
use simple_a2a_registry.Store.Create.Laws.{create_task_atomic}
use simple_a2a_registry.Tests.Samples.{sample, db_of, new_task}

abbrev one : Db
one = db_of (sample "a" completed ∷ [])

abbrev child : NewTask
child = new_task "b" (plain "a" ∷ [])

abbrev created_child : Task
created_child = sample "b" todo

abbrev orphan : NewTask
orphan = new_task "b" (plain "z" ∷ [])

create_task_atomic_example : (create_task 5 orphan one).1 ≡ one
unfolding create_task normalize_parents create_block check_exist find tx
create_task_atomic_example = create_task_atomic 5 orphan one (parent_not_found "z") refl
