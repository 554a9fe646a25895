-- ===== src/Store/Release/Left.antt =====
-- What the sweeps leave behind: no expired claim, and no failed task that may be retried.
use simple_a2a_registry.Prelude.{
  ℕ, ◌+◌, ◌<◌, String, true, false, Option, some, ◌≡◌, sym, ap, subst, ◌∙◌, arith, Bool-cases, inl,
  inr, or_else, ◌⊎◌,
}
use simple_a2a_registry.Models.{Task, running, blocked, failed}
use simple_a2a_registry.Db.{Db, find}
use simple_a2a_registry.Db.Frame.{ids}
use simple_a2a_registry.Store.Release.{
  is_releasable, release_columns, release_expired_claims, is_retryable, promote_columns,
  promote_retryable_tasks, in_tenant, default_max_retries,
}
use simple_a2a_registry.Store.Release.Sweep.{Distinct}
use simple_a2a_registry.Store.Release.Laws.{release_expired_claims_row, promote_retryable_tasks_row}

-- A limit of retries that a failed task has used up, or a task that has not failed yet.
abbrev pub IsSpent : Task → Type 0
IsSpent t =
    (t.consecutive_failures ≡ 0)
    ⊎ (or_else t.max_retries default_max_retries < t.consecutive_failures)

module _ (now : ℕ) (tenant : Option String) (db : Db) (d : Distinct (ids db.tasks)) where
  not_releasable :
      (t : Task) (e : ℕ)
      → is_releasable now tenant t ≡ false
      → (t.status ≡ running) ⊎ (t.status ≡ blocked)
      → t.claim_expires ≡ some e
      → in_tenant tenant t ≡ true
      → now < e
  unfolding is_releasable
  not_releasable t e h (inl r) x own = ground arith
  not_releasable t e h (inr b) x own = ground arith

  -- Where the ids are distinct, after the sweep for expired claims, a task of the tenant that is
  -- running or blocked under a claim with an expiry has that expiry in the future.
  pub release_leaves_no_expired :
      (i : String) (t u : Task) (e : ℕ)
      → find i db.tasks ≡ some t
      → find i (release_expired_claims now tenant db).1.tasks ≡ some u
      → (u.status ≡ running) ⊎ (u.status ≡ blocked)
      → u.claim_expires ≡ some e
      → in_tenant tenant u ≡ true
      → now < e
  release_leaves_no_expired i t u e h after active expires own =
      let row = (release_expired_claims_row now tenant db i t d h).0 in
      elim (Bool-cases (is_releasable now tenant t)) [
        | inl yes_r ↦
            let same : some u ≡ some (release_columns now (t.consecutive_failures + 1) t) =
              sym after ∙ (rw yes_r at row) in
            absurd (released_is_failed u t same active)
        | inr no_r ↦
            let same : some u ≡ some t = sym after ∙ (rw no_r at row) in
            let eq : t ≡ u = some_inj (sym same) in
            not_releasable u e (subst (λ x. is_releasable now tenant x ≡ false) eq no_r) active
              expires own
      ]
    where
      some_inj : {a b : Task} → some a ≡ some b → a ≡ b
      some_inj p = cc

      released_is_failed :
          (u t : Task)
          → some u ≡ some (release_columns now (t.consecutive_failures + 1) t)
          → (u.status ≡ running) ⊎ (u.status ≡ blocked)
          → ⊥
      released_is_failed u t p (inl r) =
          unfold release_columns in cc (ap (λ (x : Task). x.status) (some_inj p))
      released_is_failed u t p (inr r) =
          unfold release_columns in cc (ap (λ (x : Task). x.status) (some_inj p))

  not_retryable :
      (t : Task)
      → is_retryable tenant t ≡ false
      → t.status ≡ failed
      → in_tenant tenant t ≡ true
      → IsSpent t
  unfolding is_retryable
  not_retryable t h f own = ground arith

  -- Where the ids are distinct, after the retry sweep, a task of the tenant that is still failed
  -- has no failure counted or has more failures than its limit, which is 3 where it has none of
  -- its own.
  pub promote_leaves_only-IsSpent :
      (i : String) (t u : Task)
      → find i db.tasks ≡ some t
      → find i (promote_retryable_tasks now tenant db).1.tasks ≡ some u
      → u.status ≡ failed
      → in_tenant tenant u ≡ true
      → IsSpent u
  promote_leaves_only-IsSpent i t u h after still own =
      let (r, row) = (promote_retryable_tasks_row now tenant db i t d h).0 in
      elim (Bool-cases (is_retryable tenant t)) [
        | inl yes_r ↦
            let same : some u ≡ some (promote_columns r t) = sym after ∙ (rw yes_r at row) in
            absurd (promoted_is_ready u t r same still)
        | inr no_r ↦
            let eq : t ≡ u = some_inj (sym (rw no_r at row) ∙ after) in
            not_retryable u (subst (λ x. is_retryable tenant x ≡ false) eq no_r) still own
      ]
    where
      some_inj : {a b : Task} → some a ≡ some b → a ≡ b
      some_inj p = cc

      promoted_is_ready :
          (u t : Task) (r : ℕ) → some u ≡ some (promote_columns r t) → u.status ≡ failed → ⊥
      promoted_is_ready u t r p f =
          unfold promote_columns in cc (ap (λ (x : Task). x.status) (some_inj p))
