-- ===== src/Db/Frame.antt =====
-- How the statements act on a row that is looked up, on the ids and on the links.
use simple_a2a_registry.Prelude.{
  ℕ, String, true, Option, none, some, List, [], ◌∷◌, map, ◌≡◌, refl, ◌∙◌, arith, contains, is_some,
  ◌==◌, eq_iff, if◌then◌else◌, Bool-cases, inl, inr,
}
use simple_a2a_registry.Models.{Task, TaskRun, Json}
use simple_a2a_registry.Db.{Db, find, update_task_by_id, set_task, set_run, emit_event}

abbrev pub ids : List Task → List String
ids ts = map (λ t. t.id) ts

abbrev pub HasTask : Db → String → Type 0
HasTask db i = contains (ids db.tasks) i ≡ true

abbrev pub KeepsId : (Task → Task) → Type 0
KeepsId f = (t : Task) → (f t).id ≡ t.id

abbrev pub map_option : {A : Type 0} → (A → A) → Option A → Option A
map_option f none = none
map_option f (some t) = some (f t)

pub find-update_task_by_id :
    (i j : String) (f : Task → Task) (ts : List Task)
    → KeepsId f
    → find j (update_task_by_id i f ts) ≡ (if i == j then map_option f (find j ts) else find j ts)
unfolding find update_task_by_id
find-update_task_by_id i j f [] keeps = ground arith
find-update_task_by_id i j f (t ∷ ts) keeps = ground (
  arith,
  find-update_task_by_id i j f ts keeps,
  keeps t,
  eq_iff t.id i,
  eq_iff t.id j,
  eq_iff (f t).id j,
  eq_iff i j,
)

pub ids-update_task_by_id :
    (i : String) (f : Task → Task) (ts : List Task)
    → KeepsId f
    → ids (update_task_by_id i f ts) ≡ ids ts
unfolding update_task_by_id
ids-update_task_by_id i f [] keeps = refl
ids-update_task_by_id i f (t ∷ ts) keeps =
    ground (arith, ids-update_task_by_id i f ts keeps, keeps t)

-- A row with an id exists exactly when the lookup of the id finds one.
pub contains-ids : (i : String) (ts : List Task) → contains (ids ts) i ≡ is_some (find i ts)
unfolding contains find
contains-ids i [] = refl
contains-ids i (t ∷ ts) = ground (arith, contains-ids i ts)

pub find-id : (i : String) (ts : List Task) (t : Task) → find i ts ≡ some t → t.id ≡ i
unfolding find
find-id i [] t h = cc
find-id i (u ∷ ts) t h = elim (Bool-cases (u.id == i)) [
  | inl e ↦ ground (arith, eq_iff u.id i)
  | inr n ↦ find-id i ts t (rw n at h)
]

-- The ids of the tasks and the links: what the integrity of the store is about.
pub record SameFrame (a b : Db) : Type 0 where
  pub same_ids : ids b.tasks ≡ ids a.tasks
  pub same_links : b.links ≡ a.links

pub SameFrame-refl : (a : Db) → SameFrame a a
SameFrame-refl a = record { same_ids = refl; same_links = refl }

pub SameFrame-trans : {a b c : Db} → SameFrame a b → SameFrame b c → SameFrame a c
SameFrame-trans p q = record {
  same_ids = q.same_ids ∙ p.same_ids;
  same_links = q.same_links ∙ p.same_links;
}

pub set_task-SameFrame :
    (i : String) (f : Task → Task) (db : Db) → KeepsId f → SameFrame db (set_task i f db)
unfolding set_task
set_task-SameFrame i f db keeps = record {
  same_ids = ids-update_task_by_id i f db.tasks keeps;
  same_links = refl;
}

pub tasks-set_run :
    (r : Option ℕ) (f : TaskRun → TaskRun) (db : Db) → (set_run r f db).tasks ≡ db.tasks
unfolding set_run
tasks-set_run none f db = refl
tasks-set_run (some i) f db = refl

pub links-set_run :
    (r : Option ℕ) (f : TaskRun → TaskRun) (db : Db) → (set_run r f db).links ≡ db.links
unfolding set_run
links-set_run none f db = refl
links-set_run (some i) f db = refl

pub emit_event-SameFrame :
    (now : ℕ) (i kind : String) (run : Option ℕ) (payload : Option Json) (db : Db)
    → SameFrame db (emit_event now i kind run payload db)
unfolding emit_event
emit_event-SameFrame now i kind run payload db = record { same_ids = refl; same_links = refl }

pub tasks-emit_event :
    (now : ℕ) (i kind : String) (run : Option ℕ) (payload : Option Json) (db : Db)
    → (emit_event now i kind run payload db).tasks ≡ db.tasks
unfolding emit_event
tasks-emit_event now i kind run payload db = refl
