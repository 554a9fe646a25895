-- ===== src/Tests/Life.antt =====
-- The life cycle of a task.
use simple_a2a_registry.Prelude.{true, Option, some, [], ◌∷◌, ◌≡◌, ◌↔◌, inr, refl}
use simple_a2a_registry.Models.{Task, ready, completed, dangling, value}
use simple_a2a_registry.StateMachine.{validate_transition}
use simple_a2a_registry.StateMachine.Laws.{NamesStep, validate_transition_iff}
use simple_a2a_registry.Db.{
  find, ok, raise, tx, attribute_error, invalid_transition, task_not_found,
}
use simple_a2a_registry.Store.Status.{StatusUpdate, to_status, update_task_status, transition_block}
use simple_a2a_registry.Store.Status.Outcome.{
  Allowed, update_task_status_iff, update_task_status_atomic, retry_raises, dangling_raises,
}
use simple_a2a_registry.Tests.Samples.{held, broken, db_of}

validate_transition_iff_example :
    (validate_transition "ready" "running" ≡ true) ↔ NamesStep "ready" "running"
validate_transition_iff_example = validate_transition_iff "ready" "running"

abbrev finish : StatusUpdate
finish = record (to_status completed) { claim_lock = some "w:1"; result = some "done" }

update_task_status_iff_example :
    ((a : Option Task) × ((update_task_status 50 "a" finish (db_of (held ∷ []))).0 ≡ ok a)) ↔ (
      (t : Task) × (find "a" (db_of (held ∷ [])).tasks ≡ some t)
      × Allowed 50 "a" finish (db_of (held ∷ [])) t)
update_task_status_iff_example = update_task_status_iff 50 "a" finish (db_of (held ∷ []))

update_task_status_atomic_example :
    (update_task_status 50 "b" finish (db_of (held ∷ []))).1 ≡ db_of (held ∷ [])
unfolding update_task_status find tx transition_block
update_task_status_atomic_example =
    update_task_status_atomic 50 "b" finish (db_of (held ∷ [])) (task_not_found "b") refl

retry_raises_example :
    update_task_status 50 "a" (to_status ready) (db_of (broken ∷ []))
    ≡ (raise attribute_error, db_of (broken ∷ []))
unfolding find
retry_raises_example =
    retry_raises 50 "a" (to_status ready) (db_of (broken ∷ [])) broken refl refl refl

dangling_raises_example :
    update_task_status 50 "a" (to_status dangling) (db_of (held ∷ []))
    ≡ (raise (invalid_transition "running" "dangling"), db_of (held ∷ []))
unfolding find value
dangling_raises_example =
    dangling_raises 50 "a" (to_status dangling) (db_of (held ∷ [])) held refl (inr refl)
