-- ===== src/Store/Create/Laws.antt =====
-- A new task keeps the store sound, and what it is when it is there.
use simple_a2a_registry.Prelude.{
  ℕ, false, none, some, List, [], ◌∷◌, ◌++◌, contains, In, is_some, ◌≡◌, refl, sym, ap, ◌∙◌,
  Bool-cases, Option-cases, inl, inr, if◌then◌else◌,
}
use simple_a2a_registry.Models.{Task, todo, ready}
use simple_a2a_registry.StateMachine.Laws.{stay}
use simple_a2a_registry.Db.{Db, Result, ok, raise, Error, tx, find, empty_parent_id}
use simple_a2a_registry.Db.Frame.{ids, contains-ids, emit_event-SameFrame, tasks-emit_event}
use simple_a2a_registry.Db.Tx.{tx_keeps, tx_atomic}
use simple_a2a_registry.Store.Evolves.{Evolves, Evolves-refl}
use simple_a2a_registry.Store.Integrity.{IsSound, SameFrame-IsSound}
use simple_a2a_registry.Store.Create.{
  NewTask, ParentSpec, normalize_parents, new_row, check_exist, check_cycles, insert_task,
  insert_links, and_then, created_event, create_block, create_task,
}
use simple_a2a_registry.Store.Create.Rows.{
  Result-cases, find-append, AllParents, check_exist-AllParents, with_task, HasTask-new,
  AllParents-with_task, with_task-IsSound,
}
use simple_a2a_registry.Store.Create.Links.{
  insert_links-IsSound, none-NoneIs, fresh-IsLeaf, tasks-insert_links, is_empty, link_of,
}

module _ (now : ℕ) (a : NewTask) (specs : List ParentSpec) (db : Db) where
  abbrev inserted : Db
  inserted = with_task (new_row now a specs) db

  -- What the block needs to return: it has checked the parents, the id is new, and the links fit.
  record Created (t : Task) : Type 0 where
    row : t ≡ new_row now a specs
    parents : AllParents db specs
    is_new : contains (ids db.tasks) a.id ≡ false
    linked : (insert_links a.id specs inserted).0 ≡ ok tt
    after :
        (create_block now a specs db).1
        ≡ (created_event now a specs (insert_links a.id specs inserted).1).1

  -- the last two statements
  finish-ok :
      (t : Task) (r : Result (Unit {0}) × Db)
      → (and_then r (created_event now a specs)).0 ≡ ok t
      → (t ≡ new_row now a specs)
        × (r.0 ≡ ok tt)
        × ((and_then r (created_event now a specs)).1 ≡ (created_event now a specs r.1).1)
  unfolding created_event
  finish-ok t (ok tt, d) h = (cc, refl, refl)
  finish-ok t (raise e, d) h = cc

  create_block-ok : (t : Task) → (create_block now a specs db).0 ≡ ok t → Created t
  unfolding create_block insert_task
  create_block-ok t h = elim (Result-cases (check_exist specs db)) [
    | inr (e, x) ↦ cc (rw x at h)
    | inl x ↦ elim (Result-cases (check_cycles a.id specs db)) [
      | inr (e, y) ↦ cc (rw (x, y) at h)
      | inl y ↦ elim (Bool-cases (is_some (find (new_row now a specs).id db.tasks))) [
        | inl z ↦ cc (rw (x, y, z) at h)
        | inr z ↦
            let (same, fits, end) =
              finish-ok t (insert_links a.id specs inserted) (rw (x, y, z) at h) in
            record {
              row = same;
              parents = check_exist-AllParents specs db x;
              is_new = contains-ids a.id db.tasks ∙ (unfold new_row in z);
              linked = fits;
              after = rw (x, y, z) end;
            }
      ]
    ]
  ]

  Created-IsSound : (t : Task) → Created t → IsSound db → IsSound (create_block now a specs db).1
  unfolding created_event new_row
  Created-IsSound t c s = rw c.after (
      SameFrame-IsSound
        (emit_event-SameFrame now a.id _ none _ (insert_links a.id specs inserted).1)
        (insert_links-IsSound a.id specs inserted
          (with_task-IsSound (new_row now a specs) db c.is_new s)
          (HasTask-new (new_row now a specs) db)
          (AllParents-with_task (new_row now a specs) db specs c.parents)
          (none-NoneIs a.id db specs c.is_new c.parents) (fresh-IsLeaf a.id db c.is_new s)))

  tasks-Created :
      (t : Task) → Created t → (create_block now a specs db).1.tasks ≡ db.tasks ++ t ∷ []
  unfolding created_event
  tasks-Created t c = rw c.after (
      tasks-emit_event now a.id _ none _ (insert_links a.id specs inserted).1
      ∙ tasks-insert_links a.id specs inserted
      ∙ ap (λ (x : Task). db.tasks ++ x ∷ []) (sym c.row))

module _ (now : ℕ) (a : NewTask) (db : Db) where
  -- What a successful call has done: the parents are normalized, the row is new and stands behind
  -- the old ones, and each parent has its link.
  pub record IsCreated (t : Task) (after : Db) : Type 0 where
    pub specs : List ParentSpec
    pub normalized : normalize_parents a.parents ≡ some specs
    pub starts : t.status ≡ (if is_empty specs then ready else todo)
    pub was_new : find a.id db.tasks ≡ none
    pub stored : find a.id after.tasks ≡ some t
    pub appended : after.tasks ≡ db.tasks ++ t ∷ []
    pub linked : (spec : ParentSpec) → In spec specs → In (link_of a.id spec) after.links

  create_some :
      (specs : List ParentSpec)
      → normalize_parents a.parents ≡ some specs
      → create_task now a db ≡ tx (create_block now a specs) db
  unfolding create_task
  create_some specs h = rw (h, create_task)

  create_none :
      normalize_parents a.parents ≡ none → create_task now a db ≡ (raise empty_parent_id, db)
  unfolding create_task
  create_none h = rw (h, create_task)

  pub create_task-IsSound : IsSound db → IsSound (create_task now a db).1
  create_task-IsSound s = elim (Option-cases (normalize_parents a.parents)) [
    | inl e ↦ rw (create_none e) s
    | inr (specs, e) ↦ rw (create_some specs e) (
        tx_keeps IsSound (create_block now a specs) db s
          λ t h. Created-IsSound now a specs db t (create_block-ok now a specs db t h) s)
  ]

  pub create_task-Evolves : Evolves db (create_task now a db).1
  create_task-Evolves = elim (Option-cases (normalize_parents a.parents)) [
    | inl e ↦ rw (create_none e) (Evolves-refl db)
    | inr (specs, e) ↦ rw (create_some specs e) (
        tx_keeps (Evolves db) (create_block now a specs) db (Evolves-refl db) λ t h. record {
          at = λ j u hu. (
            u,
            rw (tasks-Created now a specs db t (create_block-ok now a specs db t h))
                (find-append j db.tasks (t ∷ []) u hu),
            stay,
          );
        })
  ]

  -- A call that raises has changed nothing, wherever it raises.
  pub create_task_atomic :
      (e : Error) → (create_task now a db).0 ≡ raise e → (create_task now a db).1 ≡ db
  create_task_atomic e h = elim (Option-cases (normalize_parents a.parents)) [
    | inl n ↦ rw (create_none n)
    | inr (specs, n) ↦
        rw (create_some specs n)
          (tx_atomic (create_block now a specs) db e (rw (create_some specs n) at h))
  ]
