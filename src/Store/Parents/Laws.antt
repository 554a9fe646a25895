-- ===== src/Store/Parents/Laws.antt =====
-- Which parents validate_dag_integrity lets pass.
use simple_a2a_registry.Prelude.{
  String, true, false, List, [], ◌∷◌, is_some, ◌≡◌, ◌↔◌, refl, sym, subst, ◌∙◌, ◌==◌, eq_iff,
  Bool-cases, inl, inr,
}
use simple_a2a_registry.Dag.{detect_cycle_upwards}
use simple_a2a_registry.Dag.Reach.{here}
use simple_a2a_registry.Dag.Verdict.{Down, Up-Down, Down-Up, detect_cycle_upwards_decides}
use simple_a2a_registry.Db.{Db, Result, ok, raise, find}
use simple_a2a_registry.Db.Frame.{HasTask, contains-ids}
use simple_a2a_registry.Store.Parents.{
  answer_with, before_cycle, check_parents, validate_dag_integrity,
}

-- A parent that exists and is neither the task nor one of its descendants.
abbrev pub IsFit : Db → String → String → Type 0
IsFit db i p = HasTask db p × (¬ Down db.links i p)

abbrev pub AllFit : Db → String → List String → Type 0
AllFit db i [] = Unit
AllFit db i (p ∷ ps) = IsFit db i p × AllFit db i ps

module _ (i : String) (db : Db) where
  -- One parent passes the cycle check, and so do the others.
  before_cycle-ok :
      (q : String) (rest : Result (Unit {0}))
      → before_cycle (detect_cycle_upwards db.links i q) q rest ≡ ok tt
      → (¬ Down db.links i q) × (rest ≡ ok tt)
  before_cycle-ok q rest h =
      let (v, e, iff) = detect_cycle_upwards_decides db.links i q in
      elim (Bool-cases v) [
        | inl t ↦ cc (rw (e, t) at h)
        | inr f ↦ (λ r. cc (iff.1 (Down-Up r), f), rw (e, f) at h)
      ]

  check_parents-AllFit : (ps : List String) → check_parents ps i db ≡ ok tt → AllFit db i ps
  unfolding check_parents
  check_parents-AllFit [] h = tt
  check_parents-AllFit (q ∷ ps) h = elim (Bool-cases (is_some (find q db.tasks))) [
    | inr a ↦ cc (rw a at h)
    | inl a ↦ elim (Bool-cases (q == i)) [
      | inl b ↦ cc (rw (a, b) at h)
      | inr b ↦
          let (free, k) = before_cycle-ok q (check_parents ps i db) (rw (a, b) at h) in
          ((contains-ids q db.tasks ∙ a, free), check_parents-AllFit ps k)
    ]
  ]

  AllFit-check_parents : (ps : List String) → AllFit db i ps → check_parents ps i db ≡ ok tt
  unfolding check_parents
  AllFit-check_parents [] all = refl
  AllFit-check_parents (q ∷ ps) ((has, free), all) =
      let (v, e, iff) = detect_cycle_upwards_decides db.links i q in
      let exists : is_some (find q db.tasks) ≡ true = sym (contains-ids q db.tasks) ∙ has in
      let no_self : (q == i) ≡ false = elim (Bool-cases (q == i)) [
        | inl same ↦ absurd (free (subst (λ x. Down db.links x q) ((eq_iff q i).0 same) here))
        | inr other ↦ other
      ] in
      let answer : v ≡ false = elim (Bool-cases v) [
        | inl t ↦ absurd (free (Up-Down (iff.0 t)))
        | inr f ↦ f
      ] in
      rw (exists, no_self, e, answer) (AllFit-check_parents ps all)

  -- validate_dag_integrity returns its list of parents exactly when each of them exists and is
  -- neither the task nor one of its descendants.
  pub validate_dag_integrity_iff :
      (ps : List String) → (validate_dag_integrity ps i db ≡ ok ps) ↔ AllFit db i ps
  unfolding validate_dag_integrity
  validate_dag_integrity_iff ps = (
    λ h. check_parents-AllFit ps (finished (check_parents ps i db) h),
    λ all. rw (AllFit-check_parents ps all) refl,
  )
    where
      finished : (r : Result (Unit {0})) → answer_with ps r ≡ ok ps → r ≡ ok tt
      finished (ok tt) h = refl
      finished (raise e) h = cc
