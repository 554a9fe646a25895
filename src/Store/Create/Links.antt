-- ===== src/Store/Create/Links.antt =====
-- The links of a new task: they close no cycle, and each parent gets one.
use simple_a2a_registry.Prelude.{
  String, Bool, true, false, some, List, [], ◌∷◌, contains, In, In-append_cases, In-append_left,
  In-append_right, ◌≡◌, ◌≢◌, refl, sym, ap, ◌∙◌, Bool-cases, inl, inr,
}
use simple_a2a_registry.Models.{Task, TaskLink}
use simple_a2a_registry.Dag.Acyclic.{Down-leaf}
use simple_a2a_registry.Db.{Db, ok, find, link_exists}
use simple_a2a_registry.Db.Frame.{ids, HasTask}
use simple_a2a_registry.Store.Integrity.{IsSound}
use simple_a2a_registry.Store.Edges.{append_link}
use simple_a2a_registry.Store.Edges.Laws.{append_link-IsSound}
use simple_a2a_registry.Store.Create.{ParentSpec, insert_links}
use simple_a2a_registry.Store.Create.Rows.{AllParents}

-- No link leaves the task, and none of the parents is the task.
abbrev pub IsLeaf : String → Db → Type 0
IsLeaf i db = (l : TaskLink) → In l db.links → l.parent_id ≢ i

abbrev pub NoneIs : String → List ParentSpec → Type 0
NoneIs i [] = Unit
NoneIs i (spec ∷ specs) = (spec.parent_id ≢ i) × NoneIs i specs

pub insert_links-IsSound :
    (i : String) (specs : List ParentSpec) (db : Db)
    → IsSound db
    → HasTask db i
    → AllParents db specs
    → NoneIs i specs
    → IsLeaf i db
    → IsSound (insert_links i specs db).1
unfolding insert_links append_link
insert_links-IsSound i [] db s hi ps ne leaf = s
insert_links-IsSound i (spec ∷ specs) db s hi ps ne leaf =
    elim (Bool-cases (link_exists spec.parent_id i db.links)) [
      | inl e ↦ rw e s
      | inr n ↦ rw n (
          insert_links-IsSound i specs (append_link spec.parent_id i spec.condition db)
            (append_link-IsSound spec.parent_id i spec.condition db ps.0 hi
              (λ r. ne.0 (sym (Down-leaf leaf r))) s)
            hi (parents_kept specs ps.1) ne.1 leaf_kept)
    ]
  where
    parents_kept :
        (rest : List ParentSpec)
        → AllParents db rest
        → AllParents (append_link spec.parent_id i spec.condition db) rest
    parents_kept [] h = tt
    parents_kept (x ∷ rest) h = (h.0, parents_kept rest h.1)

    added : TaskLink
    added = record { parent_id = spec.parent_id; child_id = i; condition = spec.condition }

    leaf_kept : IsLeaf i (append_link spec.parent_id i spec.condition db)
    leaf_kept l m = elim (In-append_cases l db.links (added ∷ []) m) [
      | inl k ↦ leaf l k
      | inr (inl e) ↦ λ p. ne.0 (ap (λ (x : TaskLink). x.parent_id) e ∙ p)
      | inr (inr z) ↦ absurd z
    ]

pub none-NoneIs :
    (i : String) (db : Db) (specs : List ParentSpec)
    → contains (ids db.tasks) i ≡ false
    → AllParents db specs
    → NoneIs i specs
none-NoneIs i db [] new h = tt
none-NoneIs i db (spec ∷ specs) new h = (λ e. different e h.0, none-NoneIs i db specs new h.1)
  where
    different : spec.parent_id ≡ i → HasTask db spec.parent_id → ⊥
    different e p = cc (ap (contains (ids db.tasks)) e)

pub fresh-IsLeaf :
    (i : String) (db : Db) → contains (ids db.tasks) i ≡ false → IsSound db → IsLeaf i db
fresh-IsLeaf i db new s l m e = cc ((s.ends l m).0, ap (contains (ids db.tasks)) e)

-- The tasks of the old database are found as before.
abbrev pub KeepsRows : Db → Db → Type 0
KeepsRows a b = (j : String) (t : Task) → find j a.tasks ≡ some t → find j b.tasks ≡ some t

pub tasks-insert_links :
    (i : String) (specs : List ParentSpec) (db : Db) → (insert_links i specs db).1.tasks ≡ db.tasks
unfolding insert_links append_link
tasks-insert_links i [] db = refl
tasks-insert_links i (spec ∷ specs) db = elim (Bool-cases (link_exists spec.parent_id i db.links)) [
  | inl e ↦ rw e refl
  | inr n ↦ rw n (tasks-insert_links i specs (append_link spec.parent_id i spec.condition db))
]

abbrev pub is_empty : List ParentSpec → Bool
is_empty [] = true
is_empty (_ ∷ _) = false

-- The link that a parent gives.
abbrev pub link_of : String → ParentSpec → TaskLink
link_of i spec = record { parent_id = spec.parent_id; child_id = i; condition = spec.condition }

pub insert_links-keeps :
    (i : String) (specs : List ParentSpec) (db : Db) (l : TaskLink)
    → In l db.links
    → In l (insert_links i specs db).1.links
unfolding insert_links append_link
insert_links-keeps i [] db l m = m
insert_links-keeps i (spec ∷ specs) db l m =
    elim (Bool-cases (link_exists spec.parent_id i db.links)) [
      | inl e ↦ rw e m
      | inr n ↦ rw n (
          insert_links-keeps i specs (append_link spec.parent_id i spec.condition db) l
            (In-append_left l db.links (link_of i spec ∷ []) m))
    ]

pub insert_links-linked :
    (i : String) (specs : List ParentSpec) (db : Db)
    → (insert_links i specs db).0 ≡ ok tt
    → (spec : ParentSpec) → In spec specs
    → In (link_of i spec) (insert_links i specs db).1.links
unfolding insert_links append_link
insert_links-linked i [] db h spec m = absurd m
insert_links-linked i (first ∷ specs) db h spec m =
    elim (Bool-cases (link_exists first.parent_id i db.links)) [
      | inl e ↦ cc (rw e at h)
      | inr n ↦ rw n (later (λ k. insert_links-linked i specs next_db (rw n at h) spec k) m)
    ]
  where
    next_db : Db
    next_db = append_link first.parent_id i first.condition db

    later :
        (In spec specs → In (link_of i spec) (insert_links i specs next_db).1.links)
        → In spec (first ∷ specs)
        → In (link_of i spec) (insert_links i specs next_db).1.links
    later rest (inl e) =
        insert_links-keeps i specs next_db (link_of i spec) (
          In-append_right (link_of i spec) db.links (link_of i first ∷ []) (inl (ap (link_of i) e)))
    later rest (inr k) = rest k
