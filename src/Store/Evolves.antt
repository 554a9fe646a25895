-- ===== src/Store/Evolves.antt =====
-- What every operation promises about the tasks that are there: none disappears, and a status only
-- moves along edges of the state machine.
use simple_a2a_registry.Prelude.{String, some, ◌≡◌, sym, subst, ◌==◌, eq_iff, Bool-cases, inl, inr}
use simple_a2a_registry.Models.{Task, TaskStatus}
use simple_a2a_registry.StateMachine.Laws.{Moves, stay, Moves-trans}
use simple_a2a_registry.Db.{Db, find, set_task}
use simple_a2a_registry.Db.Frame.{KeepsId, find-update_task_by_id}

-- The row of a task after an operation.
abbrev pub Follows : Db → String → TaskStatus → Type 0
Follows db i s = (u : Task) × (find i db.tasks ≡ some u) × Moves s u.status

pub record Evolves (a b : Db) : Type 0 where
  pub at : (i : String) (t : Task) → find i a.tasks ≡ some t → Follows b i t.status

pub Evolves-refl : (a : Db) → Evolves a a
Evolves-refl a = record { at = λ i t h. (t, h, stay) }

pub Evolves-trans : {a b c : Db} → Evolves a b → Evolves b c → Evolves a c
Evolves-trans p q = record {
  at = λ i t h.
      let (u, hu, m) = p.at i t h in let (v, hv, n) = q.at i u hu in (v, hv, Moves-trans m n);
}

-- Only the tasks matter.
pub Evolves-same_tasks : {a b : Db} → b.tasks ≡ a.tasks → Evolves a b
Evolves-same_tasks {a} {b} e = record {
  at = λ i t h. (t, subst (λ ts. find i ts ≡ some t) (sym e) h, stay);
}

-- A write to one row by its id.
pub set_task-Evolves :
    (i : String) (f : Task → Task) (db : Db)
    → KeepsId f
    → ((t : Task) → find i db.tasks ≡ some t → Moves t.status (f t).status)
    → Evolves db (set_task i f db)
unfolding set_task
set_task-Evolves i f db keeps moves = record {
  at = λ j t h. elim (Bool-cases (i == j)) [
    | inl e ↦ (
      f t,
      rw (find-update_task_by_id i j f db.tasks keeps, e, h),
      moves t (rw (sym ((eq_iff i j).0 e)) at h),
    )
    | inr n ↦ (t, rw (find-update_task_by_id i j f db.tasks keeps, n) h, stay)
  ];
}
