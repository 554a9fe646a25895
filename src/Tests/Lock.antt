-- ===== src/Tests/Lock.antt =====
-- The lock of a worker on a task.
use simple_a2a_registry.Prelude.{◌+◌, true, none, some, [], ◌∷◌, ◌≡◌, ◌≢◌, ◌⊎◌, inl, refl}
use simple_a2a_registry.Models.{Task, ready, running}
use simple_a2a_registry.Db.{Db, find, ok}
use simple_a2a_registry.Store.Claim.{ClaimInfo, claim_task, lock_of, heartbeat}
use simple_a2a_registry.Store.Claim.Exclusion.{
  IsFree, claim_task_succeeds, claim_task_refuses, claim_excludes, heartbeat_accepts,
}
use simple_a2a_registry.Tests.Samples.{sample, held, db_of}

abbrev waiting : Db
waiting = db_of (sample "a" ready ∷ [])

abbrev info : ClaimInfo
info = record {
  task_id = "a";
  claim_lock = lock_of "w" 1;
  claim_expires = 20 + 900;
  workspace_path = none;
}

claim_task_succeeds_example :
    ((claim_task 20 "a" "w" 1 900 waiting).0 ≡ ok (some info))
    × (find "a" (claim_task 20 "a" "w" 1 900 waiting).1.tasks
        ≡ some (record (sample "a" ready) {
          status = running;
          claim_lock = some (lock_of "w" 1);
          claim_expires = some (20 + 900);
          started_at = some 20;
          worker_pid = some 1;
          last_heartbeat_at = some 20;
          current_run_id = some waiting.next_run_id;
        }))
unfolding find
claim_task_succeeds_example =
    claim_task_succeeds 20 "a" "w" 1 900 waiting (sample "a" ready) refl refl (inl refl)

not_ready :
    (t : Task) → find "a" (db_of (held ∷ [])).tasks ≡ some t → (t.status ≢ ready) ⊎ (¬ IsFree 20 t)
unfolding find
not_ready t h = inl λ e. cc

claim_task_refuses_example :
    claim_task 20 "a" "w" 1 900 (db_of (held ∷ [])) ≡ (ok none, db_of (held ∷ []))
claim_task_refuses_example = claim_task_refuses 20 "a" "w" 1 900 (db_of (held ∷ [])) not_ready

claim_excludes_example :
    claim_task 5000 "a" "v" 2 900 (claim_task 20 "a" "w" 1 900 waiting).1
    ≡ (ok none, (claim_task 20 "a" "w" 1 900 waiting).1)
claim_excludes_example =
    claim_excludes 20 5000 "a" "w" "v" 1 2 900 900 waiting info claim_task_succeeds_example.0

heartbeat_accepts_example :
    ((heartbeat 50 "a" "w:1" (db_of (held ∷ []))).0 ≡ ok true)
    × (find "a" (heartbeat 50 "a" "w:1" (db_of (held ∷ []))).1.tasks
        ≡ some (record held { last_heartbeat_at = some 50; claim_expires = some 950 }))
unfolding find
heartbeat_accepts_example = heartbeat_accepts 50 "a" "w:1" (db_of (held ∷ [])) held refl refl
