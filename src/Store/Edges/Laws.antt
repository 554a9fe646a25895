-- ===== src/Store/Edges/Laws.antt =====
-- Edges keep the graph sound, and an edge that would close a cycle is refused.
use simple_a2a_registry.Prelude.{
  ℕ, String, true, false, not, Option, List, [], ◌∷◌, In-append_cases, In-select, is_some, ◌==◌,
  eq_iff, ◌≡◌, ◌↔◌, refl, subst, ap, ◌∙◌, arith, Bool-cases, inl, inr,
}
use simple_a2a_registry.Models.{TaskLink}
use simple_a2a_registry.Dag.{detect_cycle}
use simple_a2a_registry.Dag.Reach.{here}
use simple_a2a_registry.Dag.Verdict.{Down, detect_cycle_decides}
use simple_a2a_registry.Dag.Acyclic.{IsAcyclic-append, IsAcyclic-within, EndsWithin}
use simple_a2a_registry.Db.{Db, Result, ok, raise, tx, close_tx, find, joins, link_exists}
use simple_a2a_registry.Db.Frame.{HasTask, contains-ids}
use simple_a2a_registry.Db.Tx.{tx_keeps}
use simple_a2a_registry.Store.Evolves.{Evolves, Evolves-refl, Evolves-trans, Evolves-same_tasks}
use simple_a2a_registry.Store.Integrity.{IsSound, SameFrame-IsSound}
use simple_a2a_registry.Store.Resolve.Laws.{
  resolve_dependencies-SameFrame, resolve_dependencies-Evolves,
}
use simple_a2a_registry.Store.Edges.{
  set_condition, update_condition, append_link, write_edge, add_edge, add_block, add_dependency,
  delete_link, remove_dependency, unless_cycle,
}

set_condition-EndsWithin :
    (p c : String) (k : Option String) (ls : List TaskLink) → EndsWithin (set_condition p c k ls) ls
unfolding set_condition
set_condition-EndsWithin p c k [] l m = absurd m
set_condition-EndsWithin p c k (x ∷ ls) l (inl e) = (
  x,
  inl refl,
  ground (arith, ap (λ (y : TaskLink). y.parent_id) e),
  ground (arith, ap (λ (y : TaskLink). y.child_id) e),
)
set_condition-EndsWithin p c k (x ∷ ls) l (inr m) =
    let (y, i, a, b) = set_condition-EndsWithin p c k ls l m in (y, inr i, a, b)

-- Links with the ends of old ones keep the store sound.
within-IsSound :
    (db after : Db)
    → after.tasks ≡ db.tasks
    → EndsWithin after.links db.links
    → IsSound db
    → IsSound after
within-IsSound db after same w s = record {
  distinct = rw same s.distinct;
  ends = λ l m.
      let (k, i, p, c) = w l m in
      let (hp, hc) = s.ends k i in (rw (same, ← p) hp, rw (same, ← c) hc);
  acyclic = IsAcyclic-within w s.acyclic;
}

pub append_link-IsSound :
    (p c : String) (k : Option String) (db : Db)
    → HasTask db p
    → HasTask db c
    → ¬ Down db.links c p
    → IsSound db
    → IsSound (append_link p c k db)
unfolding append_link
append_link-IsSound p c k db hp hc free s =
    let new : TaskLink = record { parent_id = p; child_id = c; condition = k } in
    record {
      distinct = s.distinct;
      ends = λ l m. elim (In-append_cases l db.links (new ∷ []) m) [
        | inl i ↦ s.ends l i
        | inr (inl e) ↦ (
          subst (λ (x : TaskLink). HasTask db x.parent_id) e hp,
          subst (λ (x : TaskLink). HasTask db x.child_id) e hc,
        )
        | inr (inr z) ↦ absurd z
      ];
      acyclic = IsAcyclic-append db.links new s.acyclic free;
    }

write_edge-IsSound :
    (i p : String) (k : Option String) (db : Db)
    → HasTask db p
    → HasTask db i
    → ¬ Down db.links i p
    → IsSound db
    → IsSound (write_edge i p k db)
unfolding write_edge
write_edge-IsSound i p k db hp hi free s = elim (Bool-cases (link_exists p i db.links)) [
  | inl old ↦ rw old (
      within-IsSound db (update_condition p i k db) (unfold update_condition in refl)
        (unfold update_condition in set_condition-EndsWithin p i k db.links) s)
  | inr new ↦ rw new (append_link-IsSound p i k db hp hi free s)
]

tasks-write_edge :
    (i p : String) (k : Option String) (db : Db) → (write_edge i p k db).tasks ≡ db.tasks
unfolding write_edge update_condition append_link
tasks-write_edge i p k db = elim (Bool-cases (link_exists p i db.links)) [
  | inl old ↦ rw old refl
  | inr new ↦ rw new refl
]

-- What add_dependency asks for.
pub record CanAdd (db : Db) (i p : String) : Type 0 where
  pub has_child : HasTask db i
  pub has_parent : HasTask db p
  pub no_cycle : ¬ Down db.links i p

module _ (now : ℕ) (i p : String) (k : Option String) (db : Db) where
  -- The four checks: they pass exactly when the edge can be added, and then the block writes.
  add_block_pass : CanAdd db i p → add_block now i p k db ≡ add_edge now i p k db
  unfolding add_block
  add_block_pass can =
      let (b, e, iff) = detect_cycle_decides db.links i p in
      let no_self : (i == p) ≡ false = elim (Bool-cases (i == p)) [
        | inl same ↦
            absurd (can.no_cycle (subst (λ x. Down db.links i x) ((eq_iff i p).0 same) here))
        | inr other ↦ other
      ] in
      let answer : b ≡ false = elim (Bool-cases b) [
        | inl t ↦ absurd (can.no_cycle (iff.0 t))
        | inr f ↦ f
      ] in
      rw (
        ← contains-ids i db.tasks,
        can.has_child,
        ← contains-ids p db.tasks,
        can.has_parent,
        no_self,
        e,
        answer,
      )

  add_block-ok : (add_block now i p k db).0 ≡ ok tt → CanAdd db i p
  unfolding add_block
  add_block-ok h = elim (Bool-cases (is_some (find i db.tasks))) [
    | inr a ↦ cc (rw a at h)
    | inl a ↦ elim (Bool-cases (is_some (find p db.tasks))) [
      | inr b ↦ cc (rw (a, b) at h)
      | inl b ↦ elim (Bool-cases (i == p)) [
        | inl c ↦ cc (rw (a, b, c) at h)
        | inr c ↦ passed a b (rw (a, b, c) at h)
      ]
    ]
  ]
    where
      passed :
          is_some (find i db.tasks) ≡ true
          → is_some (find p db.tasks) ≡ true
          → (unless_cycle (detect_cycle db.links i p) p (add_edge now i p k) db).0 ≡ ok tt
          → CanAdd db i p
      passed a b h' =
          let (v, e, iff) = detect_cycle_decides db.links i p in
          record {
            has_child = contains-ids i db.tasks ∙ a;
            has_parent = contains-ids p db.tasks ∙ b;
            no_cycle = λ r. cc (rw (e, iff.1 r) at h');
          }

  add_edge-IsSound : CanAdd db i p → IsSound db → IsSound (add_edge now i p k db).1
  unfolding add_edge
  add_edge-IsSound can s =
      SameFrame-IsSound (resolve_dependencies-SameFrame now i (write_edge i p k db))
        (write_edge-IsSound i p k db can.has_parent can.has_child can.no_cycle s)

  add_edge-Evolves : Evolves db (add_edge now i p k db).1
  unfolding add_edge
  add_edge-Evolves =
      Evolves-trans (Evolves-same_tasks (tasks-write_edge i p k db))
        (resolve_dependencies-Evolves now i (write_edge i p k db))

  unit-eq : (a : Unit {0}) → a ≡ tt
  unit-eq tt = refl

  pub add_dependency-IsSound : IsSound db → IsSound (add_dependency now i p k db).1
  unfolding add_dependency
  add_dependency-IsSound s = tx_keeps IsSound (add_block now i p k) db s λ a h.
      let can = add_block-ok (h ∙ ap ok (unit-eq a)) in
      rw (add_block_pass can) (add_edge-IsSound can s)

  pub add_dependency-Evolves : Evolves db (add_dependency now i p k db).1
  unfolding add_dependency
  add_dependency-Evolves =
      tx_keeps (Evolves db) (add_block now i p k) db (Evolves-refl db)
        λ a h. rw (add_block_pass (add_block-ok (h ∙ ap ok (unit-eq a)))) add_edge-Evolves

  closed : (r : Result (Unit {0}) × Db) → (close_tx db r).0 ≡ ok tt → r.0 ≡ ok tt
  unfolding close_tx
  closed (ok a, d) h = h
  closed (raise e, d) h = cc

  -- add_dependency succeeds exactly when both tasks exist and the parent is neither the task
  -- itself nor one of its descendants.
  pub add_dependency_iff : ((add_dependency now i p k db).0 ≡ ok tt) ↔ CanAdd db i p
  unfolding add_dependency tx
  add_dependency_iff = (
    λ h. add_block-ok (closed (add_block now i p k db) h),
    λ can. rw (add_block_pass can) (unfold add_edge in refl),
  )

module _ (now : ℕ) (i p : String) (db : Db) where
  delete-EndsWithin : EndsWithin (delete_link p i db).links db.links
  unfolding delete_link
  delete-EndsWithin l m = (l, (In-select (λ x. not (joins p i x)) l db.links m).0, refl, refl)

  delete-IsSound : IsSound db → IsSound (delete_link p i db)
  delete-IsSound s =
      within-IsSound db (delete_link p i db) (unfold delete_link in refl) delete-EndsWithin s

  delete-Evolves : Evolves db (delete_link p i db)
  unfolding delete_link
  delete-Evolves = Evolves-same_tasks refl

  pub remove_dependency-IsSound : IsSound db → IsSound (remove_dependency now i p db).1
  unfolding remove_dependency
  remove_dependency-IsSound s = elim (Bool-cases (link_exists p i db.links)) [
    | inl e ↦ rw e (
        SameFrame-IsSound (resolve_dependencies-SameFrame now i (delete_link p i db))
          (delete-IsSound s))
    | inr n ↦ rw n (delete-IsSound s)
  ]

  pub remove_dependency-Evolves : Evolves db (remove_dependency now i p db).1
  unfolding remove_dependency
  remove_dependency-Evolves = elim (Bool-cases (link_exists p i db.links)) [
    | inl e ↦
        rw e
          (Evolves-trans delete-Evolves (resolve_dependencies-Evolves now i (delete_link p i db)))
    | inr n ↦ rw n delete-Evolves
  ]
