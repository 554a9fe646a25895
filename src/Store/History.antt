-- ===== src/Store/History.antt =====
-- Any sequence of calls of the store: what holds of the database after all of them, whatever they
-- raise on the way.
use simple_a2a_registry.Prelude.{ℕ, String, Option, some, List, [], ◌∷◌, ◌≡◌}
use simple_a2a_registry.Models.{Task, TaskStatus, archived}
use simple_a2a_registry.StateMachine.Laws.{Moves-archived}
use simple_a2a_registry.Db.{Db, empty_db, find}
use simple_a2a_registry.Store.Evolves.{Evolves, Follows, Evolves-refl, Evolves-trans}
use simple_a2a_registry.Store.Integrity.{IsSound, IsSound-empty, SameFrame-IsSound}
use simple_a2a_registry.Store.Create.{NewTask, create_task}
use simple_a2a_registry.Store.Create.Laws.{create_task-IsSound, create_task-Evolves}
use simple_a2a_registry.Store.Edit.{
  TaskEdit, update_task, add_comment, update_workspace_path, set_worker_pid,
}
use simple_a2a_registry.Store.Edit.Laws.{
  update_task-SameFrame, update_task-Evolves, add_comment-SameFrame, add_comment-Evolves,
  update_workspace_path-SameFrame, update_workspace_path-Evolves, set_worker_pid-SameFrame,
  set_worker_pid-Evolves,
}
use simple_a2a_registry.Store.Status.{StatusUpdate, update_task_status, delete_task}
use simple_a2a_registry.Store.Status.Outcome.{
  update_task_status-SameFrame, update_task_status-Evolves,
}
use simple_a2a_registry.Store.Status.Batch.{
  batch_update_status, batch_delete, delete_task-SameFrame, delete_task-Evolves,
  batch_update_status-SameFrame, batch_update_status-Evolves, batch_delete-SameFrame,
  batch_delete-Evolves,
}
use simple_a2a_registry.Store.Claim.{claim_task, heartbeat}
use simple_a2a_registry.Store.Claim.Laws.{
  claim_task-SameFrame, claim_task-Evolves, heartbeat-SameFrame, heartbeat-Evolves,
}
use simple_a2a_registry.Store.Release.{release_expired_claims, promote_retryable_tasks}
use simple_a2a_registry.Store.Release.Laws.{
  release_expired_claims-SameFrame, release_expired_claims-Evolves,
  promote_retryable_tasks-SameFrame, promote_retryable_tasks-Evolves,
}
use simple_a2a_registry.Store.Edges.{add_dependency, remove_dependency}
use simple_a2a_registry.Store.Edges.Laws.{
  add_dependency-IsSound, add_dependency-Evolves, remove_dependency-IsSound,
  remove_dependency-Evolves,
}

-- A call of a method of TaskStore that may write.
pub data Call : Type 0 where
  create : NewTask → Call
  edit : String → TaskEdit → Call
  set_status : String → StatusUpdate → Call
  archive : String → Call
  set_status_of_all : List String → TaskStatus → Call
  archive_all : List String → Call
  claim : (task_id worker_id : String) (pid ttl : ℕ) → Call
  beat : (task_id claim_lock : String) → Call
  release : Option String → Call
  promote : Option String → Call
  comment : (task_id author body : String) → Call
  link : (task_id parent_id : String) (condition : Option String) → Call
  unlink : (task_id parent_id : String) → Call
  set_path : (task_id path : String) → Call
  set_pid : (task_id : String) (pid : ℕ) → Call

-- The database after a call at a clock value; the caller survives what the call raises.
unfoldable pub perform : ℕ → Call → Db → Db
perform now (create a) db = (create_task now a db).1
perform now (edit i e) db = (update_task now i e db).1
perform now (set_status i u) db = (update_task_status now i u db).1
perform now (archive i) db = (delete_task now i db).1
perform now (set_status_of_all is s) db = (batch_update_status now is s db).1
perform now (archive_all is) db = (batch_delete now is db).1
perform now (claim i w pid ttl) db = (claim_task now i w pid ttl db).1
perform now (beat i lock) db = (heartbeat now i lock db).1
perform now (release tenant) db = (release_expired_claims now tenant db).1
perform now (promote tenant) db = (promote_retryable_tasks now tenant db).1
perform now (comment i author body) db = (add_comment now i author body db).1
perform now (link i p k) db = (add_dependency now i p k db).1
perform now (unlink i p) db = (remove_dependency now i p db).1
perform now (set_path i path) db = update_workspace_path i path db
perform now (set_pid i pid) db = set_worker_pid i pid db

-- The clock may stand, run or jump between the calls.
unfoldable pub history : List (ℕ × Call) → Db → Db
history [] db = db
history ((now, call) ∷ calls) db = history calls (perform now call db)

perform-IsSound : (now : ℕ) (call : Call) (db : Db) → IsSound db → IsSound (perform now call db)
unfolding perform
perform-IsSound now (create a) db s = create_task-IsSound now a db s
perform-IsSound now (edit i e) db s = SameFrame-IsSound (update_task-SameFrame now i e db) s
perform-IsSound now (set_status i u) db s =
    SameFrame-IsSound (update_task_status-SameFrame now i u db) s
perform-IsSound now (archive i) db s = SameFrame-IsSound (delete_task-SameFrame now i db) s
perform-IsSound now (set_status_of_all is t) db s =
    SameFrame-IsSound (batch_update_status-SameFrame now is db t) s
perform-IsSound now (archive_all is) db s = SameFrame-IsSound (batch_delete-SameFrame now is db) s
perform-IsSound now (claim i w pid ttl) db s =
    SameFrame-IsSound (claim_task-SameFrame now i w pid ttl db) s
perform-IsSound now (beat i lock) db s = SameFrame-IsSound (heartbeat-SameFrame now i lock db) s
perform-IsSound now (release tenant) db s =
    SameFrame-IsSound (release_expired_claims-SameFrame now tenant db) s
perform-IsSound now (promote tenant) db s =
    SameFrame-IsSound (promote_retryable_tasks-SameFrame now tenant db) s
perform-IsSound now (comment i author body) db s =
    SameFrame-IsSound (add_comment-SameFrame now i author body db) s
perform-IsSound now (link i p k) db s = add_dependency-IsSound now i p k db s
perform-IsSound now (unlink i p) db s = remove_dependency-IsSound now i p db s
perform-IsSound now (set_path i path) db s =
    SameFrame-IsSound (update_workspace_path-SameFrame i db path) s
perform-IsSound now (set_pid i pid) db s = SameFrame-IsSound (set_worker_pid-SameFrame i db pid) s

perform-Evolves : (now : ℕ) (call : Call) (db : Db) → IsSound db → Evolves db (perform now call db)
unfolding perform
perform-Evolves now (create a) db s = create_task-Evolves now a db
perform-Evolves now (edit i e) db s = update_task-Evolves now i e db
perform-Evolves now (set_status i u) db s = update_task_status-Evolves now i u db
perform-Evolves now (archive i) db s = delete_task-Evolves now i db
perform-Evolves now (set_status_of_all is t) db s = batch_update_status-Evolves now is db t
perform-Evolves now (archive_all is) db s = batch_delete-Evolves now is db
perform-Evolves now (claim i w pid ttl) db s = claim_task-Evolves now i w pid ttl db
perform-Evolves now (beat i lock) db s = heartbeat-Evolves now i lock db
perform-Evolves now (release tenant) db s = release_expired_claims-Evolves now tenant db s.distinct
perform-Evolves now (promote tenant) db s = promote_retryable_tasks-Evolves now tenant db s.distinct
perform-Evolves now (comment i author body) db s = add_comment-Evolves now i author body db
perform-Evolves now (link i p k) db s = add_dependency-Evolves now i p k db
perform-Evolves now (unlink i p) db s = remove_dependency-Evolves now i p db
perform-Evolves now (set_path i path) db s = update_workspace_path-Evolves i db path
perform-Evolves now (set_pid i pid) db s = set_worker_pid-Evolves i db pid

history_keeps : (calls : List (ℕ × Call)) (db : Db) → IsSound db → IsSound (history calls db)
unfolding history
history_keeps [] db s = s
history_keeps ((now, call) ∷ calls) db s =
    history_keeps calls (perform now call db) (perform-IsSound now call db s)

-- Whatever calls are made of an empty store, at whatever times: the ids of the tasks are distinct,
-- every link joins two tasks that exist, and the links form no cycle.
pub history-IsSound : (calls : List (ℕ × Call)) → IsSound (history calls empty_db)
history-IsSound calls = history_keeps calls empty_db IsSound-empty

-- From a sound store, whatever calls are made, a task that is there stays there, and its status has
-- moved along edges of the state machine only.
pub history-Evolves :
    (calls : List (ℕ × Call)) (db : Db) → IsSound db → Evolves db (history calls db)
unfolding history
history-Evolves [] db s = Evolves-refl db
history-Evolves ((now, call) ∷ calls) db s =
    Evolves-trans (perform-Evolves now call db s)
      (history-Evolves calls (perform now call db) (perform-IsSound now call db s))

-- From a sound store, whatever calls are made and whatever they raise: a task that is there stays
-- there, and its status after them is reached from its status before along edges of the life
-- cycle only.
pub history-Follows :
    (calls : List (ℕ × Call)) (db : Db) (i : String) (t : Task)
    → IsSound db
    → find i db.tasks ≡ some t
    → Follows (history calls db) i t.status
history-Follows calls db i t s h = (history-Evolves calls db s).at i t h

-- A task that is archived is archived after any calls.
archived_for_good :
    (calls : List (ℕ × Call)) (db : Db) (i : String) (t : Task)
    → IsSound db
    → find i db.tasks ≡ some t
    → t.status ≡ archived
    → (u : Task) × (find i (history calls db).tasks ≡ some u) × (u.status ≡ archived)
archived_for_good calls db i t s h e =
    let (u, hu, m) = (history-Evolves calls db s).at i t h in (u, hu, Moves-archived m e)
