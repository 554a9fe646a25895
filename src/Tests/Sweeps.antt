-- ===== src/Tests/Sweeps.antt =====
-- The sweeps of the dispatcher.
use simple_a2a_registry.Prelude.{
  ℕ, ◌+◌, ◌<◌, none, some, [], ◌∷◌, ◌≡◌, ◌⊎◌, inl, refl, select, length, contains,
}
use simple_a2a_registry.Models.{Task, ready, failed}
use simple_a2a_registry.Db.{find}
use simple_a2a_registry.Db.Frame.{ids}
use simple_a2a_registry.Store.Release.{
  release_expired_claims, is_releasable, promote_retryable_tasks, is_retryable, sweep,
}
use simple_a2a_registry.Store.Release.Sweep.{Distinct}
use simple_a2a_registry.Store.Release.Outcome.{
  HasTimedOut, CanRetry, release_expired_claims_lem, promote_retryable_tasks_lem,
}
use simple_a2a_registry.Store.Release.Left.{
  release_leaves_no_expired, promote_leaves_only-IsSpent, IsSpent,
}
use simple_a2a_registry.Tests.Samples.{held, broken, spent, db_of}

one_Distinct : (t : Task) → Distinct (ids (t ∷ []))
unfolding contains
one_Distinct t = (refl, tt)

release_expired_claims_lem_example :
    ((HasTimedOut 100 none held
        × (find "a" (release_expired_claims 100 none (db_of (held ∷ []))).1.tasks
            ≡ some (record held {
              status = failed;
              completed_at = some 100;
              consecutive_failures = held.consecutive_failures + 1;
              last_failure_error = some "Claim TTL expired";
              claim_lock = none;
              claim_expires = none;
              worker_pid = none;
              current_run_id = none;
            })))
      ⊎ ((¬ HasTimedOut 100 none held)
          × (find "a" (release_expired_claims 100 none (db_of (held ∷ []))).1.tasks ≡ some held)))
    × ((release_expired_claims 100 none (db_of (held ∷ []))).0
        ≡ length (select (is_releasable 100 none) (held ∷ [])))
unfolding find
release_expired_claims_lem_example =
    release_expired_claims_lem 100 none (db_of (held ∷ [])) "a" held (one_Distinct held) refl

-- A claim that has not expired survives the sweep.
release_leaves_no_expired_example : 99 < 100
unfolding find release_expired_claims is_releasable select sweep
release_leaves_no_expired_example =
    release_leaves_no_expired 99 none (db_of (held ∷ [])) (one_Distinct held) "a" held held 100 refl
      refl (inl refl) refl refl

promote_retryable_tasks_lem_example :
    ((CanRetry none broken
        × (r : ℕ) × (find "a" (promote_retryable_tasks 100 none (db_of (broken ∷ []))).1.tasks
            ≡ some (record broken {
              status = ready;
              claim_lock = none;
              claim_expires = none;
              current_run_id = some r;
              worker_pid = none;
            })))
      ⊎ ((¬ CanRetry none broken)
          × (find "a" (promote_retryable_tasks 100 none (db_of (broken ∷ []))).1.tasks
              ≡ some broken)))
    × ((promote_retryable_tasks 100 none (db_of (broken ∷ []))).0
        ≡ length (select (is_retryable none) (broken ∷ [])))
unfolding find
promote_retryable_tasks_lem_example =
    promote_retryable_tasks_lem 100 none (db_of (broken ∷ [])) "a" broken (one_Distinct broken) refl

promote_leaves_only-IsSpent_example : IsSpent spent
unfolding find promote_retryable_tasks is_retryable select sweep
promote_leaves_only-IsSpent_example =
    promote_leaves_only-IsSpent 100 none (db_of (spent ∷ [])) (one_Distinct spent) "b" spent spent
      refl refl refl refl
