-- ===== src/Dag/Fuel.antt =====
-- The search ends: each link is pushed at most once, since its source is expanded once.
use simple_a2a_registry.Prelude.{
  ℕ, zero, suc, ◌+◌, ◌≤◌, ◌<◌, String, Bool, true, false, some, List, [], ◌∷◌, select, contains,
  length, ◌≡◌, refl, sym, inl, inr, arith, not, ◌==◌, eq_iff, Bool-cases,
}
use simple_a2a_registry.Models.{TaskLink}
use simple_a2a_registry.Dag.{push_all, next, dfs, search_fuel}

length-push_all :
    (rows stack : List String) → length (push_all rows stack) ≡ length rows + length stack
unfolding push_all
length-push_all [] stack = omega arith
length-push_all (r ∷ rows) stack = omega (arith, length-push_all rows (r ∷ stack))

module _ (src dst : TaskLink → String) where
  -- The links whose source is not visited.
  pub pending : List String → List TaskLink → ℕ
  pending visited links = length (select (λ l. not (contains visited (src l))) links)

  pending-le-length :
      (visited : List String) (links : List TaskLink) → pending visited links ≤ length links
  unfolding pending select
  pending-le-length visited [] = omega arith
  pending-le-length visited (l ∷ links) = ground (arith, pending-le-length visited links)

  -- To expand a node takes its links out of the pending ones.
  pending-expand :
      (node : String) (visited : List String) (links : List TaskLink)
      → contains visited node ≡ false
      → pending visited links ≡ length (next src dst links node) + pending (node ∷ visited) links
  unfolding pending select next contains
  pending-expand node visited [] new = omega arith
  pending-expand node visited (l ∷ links) new = elim (Bool-cases (src l == node)) [
    | inl same ↦
        let e = (eq_iff (src l) node).0 same in
        let back = (eq_iff node (src l)).1 (sym e) in
        let old : contains visited (src l) ≡ false = rw e new in
        rw (same, back, old) (omega (arith, pending-expand node visited links new))
    | inr other ↦
        ground
          (arith, pending-expand node visited links new, eq_iff node (src l), eq_iff (src l) node)
  ]

  -- With more fuel than nodes on the stack and pending links together, the search answers.
  pub dfs_total :
      (links : List TaskLink) (target : String) (fuel : ℕ) (stack visited : List String)
      → length stack + pending visited links < fuel
      → (b : Bool) × (dfs src dst links target fuel stack visited ≡ some b)
  unfolding dfs
  dfs_total links target zero stack visited h = absurd (omega arith)
  dfs_total links target (suc fuel) [] visited h = (false, refl)
  dfs_total links target (suc fuel) (node ∷ stack) visited h = elim (Bool-cases (node == target)) [
    | inl t ↦ (true, rw t)
    | inr f ↦ elim (Bool-cases (contains visited node)) [
      | inl old ↦
          let (b, e) = dfs_total links target fuel stack visited (omega arith) in (b, rw (f, old) e)
      | inr new ↦
          let rows = next src dst links node in
          let (b, e) =
            dfs_total links target fuel (push_all rows stack) (node ∷ visited)
              (omega (arith, length-push_all rows stack, pending-expand node visited links new)) in
          (b, rw (f, new) e)
    ]
  ]

  pub search_fuel_enough :
      (links : List TaskLink) (target start : String)
      → (b : Bool) × (dfs src dst links target (search_fuel links) (start ∷ []) [] ≡ some b)
  search_fuel_enough links target start =
      dfs_total links target (search_fuel links) (start ∷ []) []
        (omega (arith, pending-le-length [] links))
