-- ===== src/Store/Status/Batch.antt =====
-- batch_update_status and batch_delete: the loops that collect what single calls raise.
use simple_a2a_registry.Prelude.{
  ℕ, ◌+◌, String, Bool, true, List, [], ◌∷◌, ◌++◌, Option, ◌≡◌, refl, if◌then◌else◌,
}
use simple_a2a_registry.Models.{Task, TaskStatus, archived}
use simple_a2a_registry.Db.{Db, Result, ok, raise, Action, is_value_error, permission_error}
use simple_a2a_registry.Db.Frame.{SameFrame, SameFrame-refl, SameFrame-trans}
use simple_a2a_registry.Store.Evolves.{Evolves, Evolves-refl, Evolves-trans}
use simple_a2a_registry.Store.Status.{to_status, update_task_status, delete_task, found_some}
use simple_a2a_registry.Store.Status.Outcome.{
  update_task_status-Evolves, update_task_status-SameFrame,
}

pub record BatchResult : Type 0 where
  pub updated : ℕ
  pub failed : List String

-- One round of a loop: count a success, skip a ValueError, collect a PermissionError. Anything
-- else leaves the loop.
count_result : {A : Type 0} → (A → Bool) → String → BatchResult → Result A → Result BatchResult
count_result counts task_id b (ok a) =
    ok (if counts a then record b { updated = b.updated + 1 } else b)
count_result counts task_id b (raise permission_error) =
    ok (record b { failed = b.failed ++ task_id ∷ [] })
count_result counts task_id b (raise e) = if is_value_error e then ok b else raise e

module _ {A : Type 0} (counts : A → Bool) (step : String → Action A) where
  next_round : (BatchResult → Action BatchResult) → Result BatchResult → Action BatchResult
  next_round rest (ok b) db = rest b db
  next_round rest (raise e) db = (raise e, db)

  batch_loop : List String → BatchResult → Action BatchResult
  unfolding next_round
  batch_loop [] b db = (ok b, db)
  batch_loop (task_id ∷ task_ids) b db =
      next_round (batch_loop task_ids) (count_result counts task_id b (step task_id db).0)
        (step task_id db).1

abbrev no_results : BatchResult
no_results = record { updated = 0; failed = [] }

unfoldable pub batch_update_status : ℕ → List String → TaskStatus → Action BatchResult
unfolding batch_loop count_result
batch_update_status now task_ids new_status =
    batch_loop (λ _. true) (λ i. update_task_status now i (to_status new_status)) task_ids
      no_results

unfoldable pub batch_delete : ℕ → List String → Action BatchResult
unfolding batch_loop count_result
batch_delete now task_ids = batch_loop (λ b. b) (delete_task now) task_ids no_results

-- A relation between databases that one call of the loop keeps is kept by the loop.
module _ {A : Type 0} (counts : A → Bool) (step : String → Action A) (R : Db → Db → Type 0)
    (same : (a : Db) → R a a) (trans : (a b c : Db) → R a b → R b c → R a c)
    (keeps : (i : String) (db : Db) → R db (step i db).1) where
  next_round_keeps :
      (rest : BatchResult → Action BatchResult) (r : Result BatchResult) (db : Db)
      → ((b : BatchResult) (d : Db) → R d (rest b d).1)
      → R db (next_round counts step rest r db).1
  unfolding next_round
  next_round_keeps rest (ok b) db h = h b db
  next_round_keeps rest (raise e) db h = same db

  batch_loop_keeps :
      (task_ids : List String) (b : BatchResult) (db : Db)
      → R db (batch_loop counts step task_ids b db).1
  unfolding batch_loop
  batch_loop_keeps [] b db = same db
  batch_loop_keeps (i ∷ task_ids) b db = trans db (step i db).1 _ (keeps i db) (
      next_round_keeps (batch_loop counts step task_ids) _ (step i db).1
        (batch_loop_keeps task_ids))

db-found_some : (r : Result (Option Task) × Db) → (found_some r).1 ≡ r.1
unfolding found_some
db-found_some (ok (Option.none), db) = refl
db-found_some (ok (Option.some t), db) = refl
db-found_some (raise e, db) = refl

pub delete_task-Evolves : (now : ℕ) (i : String) (db : Db) → Evolves db (delete_task now i db).1
unfolding delete_task
delete_task-Evolves now i db =
    rw (db-found_some (update_task_status now i (to_status archived) db))
      (update_task_status-Evolves now i (to_status archived) db)

pub delete_task-SameFrame : (now : ℕ) (i : String) (db : Db) → SameFrame db (delete_task now i db).1
unfolding delete_task
delete_task-SameFrame now i db =
    rw (db-found_some (update_task_status now i (to_status archived) db))
      (update_task_status-SameFrame now i (to_status archived) db)

module _ (now : ℕ) (task_ids : List String) (db : Db) where
  pub batch_update_status-Evolves :
      (s : TaskStatus) → Evolves db (batch_update_status now task_ids s db).1
  unfolding batch_update_status
  batch_update_status-Evolves s =
      batch_loop_keeps (λ _. true) (λ i. update_task_status now i (to_status s)) Evolves
        Evolves-refl (λ a b c. Evolves-trans)
        (λ i d. update_task_status-Evolves now i (to_status s) d) task_ids no_results db

  pub batch_update_status-SameFrame :
      (s : TaskStatus) → SameFrame db (batch_update_status now task_ids s db).1
  unfolding batch_update_status
  batch_update_status-SameFrame s =
      batch_loop_keeps (λ _. true) (λ i. update_task_status now i (to_status s)) SameFrame
        SameFrame-refl (λ a b c. SameFrame-trans)
        (λ i d. update_task_status-SameFrame now i (to_status s) d) task_ids no_results db

  pub batch_delete-Evolves : Evolves db (batch_delete now task_ids db).1
  unfolding batch_delete
  batch_delete-Evolves =
      batch_loop_keeps (λ b. b) (delete_task now) Evolves Evolves-refl (λ a b c. Evolves-trans)
        (delete_task-Evolves now) task_ids no_results db

  pub batch_delete-SameFrame : SameFrame db (batch_delete now task_ids db).1
  unfolding batch_delete
  batch_delete-SameFrame =
      batch_loop_keeps (λ b. b) (delete_task now) SameFrame SameFrame-refl
        (λ a b c. SameFrame-trans) (delete_task-SameFrame now) task_ids no_results db
