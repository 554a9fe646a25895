-- ===== src/Store/Integrity.antt =====
-- The integrity of the store: distinct task ids, links between tasks that exist, and no cycle.
use simple_a2a_registry.Prelude.{true, In, contains, ◌≡◌, sym, subst}
use simple_a2a_registry.Models.{TaskLink}
use simple_a2a_registry.Dag.Acyclic.{IsAcyclic, IsAcyclic-nil}
use simple_a2a_registry.Db.{Db, empty_db}
use simple_a2a_registry.Db.Frame.{ids, HasTask, SameFrame}
use simple_a2a_registry.Store.Release.Sweep.{Distinct}

pub record IsSound (db : Db) : Type 0 where
  pub distinct : Distinct (ids db.tasks)
  pub ends : (l : TaskLink) → In l db.links → HasTask db l.parent_id × HasTask db l.child_id
  pub acyclic : IsAcyclic db.links

pub IsSound-empty : IsSound empty_db
IsSound-empty = record { distinct = tt; ends = λ l m. absurd m; acyclic = IsAcyclic-nil }

-- An operation that keeps the ids and the links keeps the integrity.
pub SameFrame-IsSound : {a b : Db} → SameFrame a b → IsSound a → IsSound b
SameFrame-IsSound {a} {b} f s = record {
  distinct = subst Distinct (sym f.same_ids) s.distinct;
  ends = λ l m.
      let (p, c) = s.ends l (subst (In l) f.same_links m) in
      (
        subst (λ is. contains is l.parent_id ≡ true) (sym f.same_ids) p,
        subst (λ is. contains is l.child_id ≡ true) (sym f.same_ids) c,
      );
  acyclic = subst IsAcyclic (sym f.same_links) s.acyclic;
}
