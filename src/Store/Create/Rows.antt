-- ===== src/Store/Create/Rows.antt =====
-- The table of tasks with one more row, and the parents that have rows.
use simple_a2a_registry.Prelude.{
  String, false, ◌||◌, none, some, List, [], ◌∷◌, ◌++◌, contains, is_some, ◌==◌, eq_iff, ◌≡◌, ◌⊎◌,
  refl, ap, ◌∙◌, arith, Bool-cases, inl, inr, text_eq_self,
}
use simple_a2a_registry.Models.{Task}
use simple_a2a_registry.Db.{Db, Result, ok, raise, Error, find}
use simple_a2a_registry.Db.Frame.{ids, HasTask, contains-ids}
use simple_a2a_registry.Store.Integrity.{IsSound}
use simple_a2a_registry.Store.Release.Sweep.{Distinct}
use simple_a2a_registry.Store.Create.{ParentSpec, check_exist}

pub Result-cases : (r : Result (Unit {0})) → (r ≡ ok tt) ⊎ ((e : Error) × (r ≡ raise e))
Result-cases (ok tt) = inl refl
Result-cases (raise e) = inr (e, refl)

pub contains-snoc :
    (xs : List String) (y i : String) → contains (xs ++ y ∷ []) i ≡ (contains xs i || y == i)
unfolding contains
contains-snoc [] y i = ground arith
contains-snoc (x ∷ xs) y i = ground (arith, contains-snoc xs y i)

pub Distinct-snoc :
    (xs : List String) (y : String) → Distinct xs → contains xs y ≡ false → Distinct (xs ++ y ∷ [])
unfolding contains
Distinct-snoc [] y d h = (refl, tt)
Distinct-snoc (x ∷ xs) y d h = (
  ground (arith, contains-snoc xs y x, eq_iff x y, eq_iff y x),
  Distinct-snoc xs y d.1 (ground arith),
)

pub ids-append : (xs ys : List Task) → ids (xs ++ ys) ≡ ids xs ++ ids ys
ids-append [] ys = refl
ids-append (x ∷ xs) ys = ap (λ rest. x.id ∷ rest) (ids-append xs ys)

pub find-append :
    (j : String) (ts us : List Task) (t : Task) → find j ts ≡ some t → find j (ts ++ us) ≡ some t
unfolding find
find-append j [] us t h = cc
find-append j (u ∷ ts) us t h = elim (Bool-cases (u.id == j)) [
  | inl e ↦ rw e (rw e at h)
  | inr n ↦ rw n (find-append j ts us t (rw n at h))
]

pub find-snoc_new :
    (ts : List Task) (t : Task) → find t.id ts ≡ none → find t.id (ts ++ t ∷ []) ≡ some t
unfolding find
find-snoc_new [] t h = rw (text_eq_self t.id)
find-snoc_new (u ∷ ts) t h = elim (Bool-cases (u.id == t.id)) [
  | inl e ↦ cc (rw e at h)
  | inr n ↦ rw n (find-snoc_new ts t (rw n at h))
]

abbrev pub AllParents : Db → List ParentSpec → Type 0
AllParents db [] = Unit
AllParents db (spec ∷ specs) = HasTask db spec.parent_id × AllParents db specs

pub check_exist-AllParents :
    (specs : List ParentSpec) (db : Db) → check_exist specs db ≡ ok tt → AllParents db specs
unfolding check_exist
check_exist-AllParents [] db h = tt
check_exist-AllParents (spec ∷ specs) db h =
    elim (Bool-cases (is_some (find spec.parent_id db.tasks))) [
      | inl e ↦
          (contains-ids spec.parent_id db.tasks ∙ e, check_exist-AllParents specs db (rw e at h))
      | inr n ↦ cc (rw n at h)
    ]

-- The database with one more task.
abbrev pub with_task : Task → Db → Db
with_task t db = record db { tasks = db.tasks ++ t ∷ [] }

pub HasTask-with_task :
    (t : Task) (db : Db) (i : String) → HasTask db i → HasTask (with_task t db) i
HasTask-with_task t db i h =
    rw (ids-append db.tasks (t ∷ []), contains-snoc (ids db.tasks) t.id i, h)

pub HasTask-new : (t : Task) (db : Db) → HasTask (with_task t db) t.id
HasTask-new t db = elim (Bool-cases (contains (ids db.tasks) t.id)) [
  | inl e ↦ HasTask-with_task t db t.id e
  | inr n ↦
      rw
        (ids-append db.tasks (t ∷ []), contains-snoc (ids db.tasks) t.id t.id, n, text_eq_self t.id)
]

pub AllParents-with_task :
    (t : Task) (db : Db) (specs : List ParentSpec)
    → AllParents db specs
    → AllParents (with_task t db) specs
AllParents-with_task t db [] h = tt
AllParents-with_task t db (spec ∷ specs) h =
    (HasTask-with_task t db spec.parent_id h.0, AllParents-with_task t db specs h.1)

pub with_task-IsSound :
    (t : Task) (db : Db)
    → contains (ids db.tasks) t.id ≡ false
    → IsSound db
    → IsSound (with_task t db)
with_task-IsSound t db new s = record {
  distinct = rw (ids-append db.tasks (t ∷ [])) (Distinct-snoc (ids db.tasks) t.id s.distinct new);
  ends = λ l m.
      let (p, c) = s.ends l m in
      (HasTask-with_task t db l.parent_id p, HasTask-with_task t db l.child_id c);
  acyclic = s.acyclic;
}
