-- ===== src/Dag/Reach.antt =====
-- Paths along links, and what the search says about them.
use simple_a2a_registry.Prelude.{
  ℕ, zero, suc, String, true, false, some, List, [], ◌∷◌, map, select, In, In-select,
  select_complete, contains, contains→In, ◌≡◌, refl, sym, subst, ap, ◌∙◌, ◌≢◌, ◌⊎◌, inl, inr, ◌==◌,
  eq_iff, Bool-cases, Text-cases,
}
use simple_a2a_registry.Models.{TaskLink}
use simple_a2a_registry.Dag.{push_all, next, dfs}

pub data Reach (src dst : TaskLink → String) (links : List TaskLink)
    : String → String → Type 0 where
  here : {a : String} → Reach src dst links a a
  along :
      {a b : String} (l : TaskLink)
      → In l links
      → src l ≡ a
      → Reach src dst links (dst l) b
      → Reach src dst links a b

module _ {src dst : TaskLink → String} {links : List TaskLink} where
  pub Reach-trans :
      {a b c : String} → Reach src dst links a b → Reach src dst links b c → Reach src dst links a c
  Reach-trans here r = r
  Reach-trans (along l m e p) r = along l m e (Reach-trans p r)

In-push_all :
    (n : String) (rows stack : List String) → In n (push_all rows stack) → In n rows ⊎ In n stack
unfolding push_all
In-push_all n [] stack h = inr h
In-push_all n (r ∷ rows) stack h = elim (In-push_all n rows (r ∷ stack) h) [
  | inl m ↦ inl (inr m)
  | inr (inl e) ↦ inl (inl e)
  | inr (inr m) ↦ inr m
]

push_all-In :
    (n : String) (rows stack : List String) → In n rows ⊎ In n stack → In n (push_all rows stack)
unfolding push_all
push_all-In n [] stack (inl m) = absurd m
push_all-In n [] stack (inr m) = m
push_all-In n (r ∷ rows) stack (inl (inl e)) = push_all-In n rows (r ∷ stack) (inr (inl e))
push_all-In n (r ∷ rows) stack (inl (inr m)) = push_all-In n rows (r ∷ stack) (inl m)
push_all-In n (r ∷ rows) stack (inr m) = push_all-In n rows (r ∷ stack) (inr (inr m))

In-map :
    (f : TaskLink → String) (n : String) (ls : List TaskLink)
    → In n (map f ls)
    → (l : TaskLink) × In l ls × (f l ≡ n)
In-map f n [] h = absurd h
In-map f n (l ∷ ls) (inl e) = (l, inl refl, e)
In-map f n (l ∷ ls) (inr m) = let (k, i, e) = In-map f n ls m in (k, inr i, e)

map-In : (f : TaskLink → String) (l : TaskLink) (ls : List TaskLink) → In l ls → In (f l) (map f ls)
map-In f l [] h = absurd h
map-In f l (k ∷ ls) (inl e) = inl (ap f e)
map-In f l (k ∷ ls) (inr m) = inr (map-In f l ls m)

module _ (src dst : TaskLink → String) (links : List TaskLink) where
  next_sound : (node n : String) → In n (next src dst links node) → Reach src dst links node n
  unfolding next
  next_sound node n h =
      let (l, m, e) = In-map dst n (select (λ l. src l == node) links) h in
      let (i, t) = In-select (λ k. src k == node) l links m in
      along l i ((eq_iff (src l) node).0 t) (subst (λ x. Reach src dst links (dst l) x) e here)

  next_complete :
      (node : String) (l : TaskLink)
      → In l links
      → src l ≡ node
      → In (dst l) (next src dst links node)
  unfolding next
  next_complete node l i e =
      map-In dst l _ (select_complete (λ k. src k == node) l links i ((eq_iff (src l) node).1 e))

  module _ (target : String) where
    -- A search that says true has found a path from where the stack was reached.
    pub dfs_sound :
        (fuel : ℕ) (start : String) (stack visited : List String)
        → ((n : String) → In n stack → Reach src dst links start n)
        → dfs src dst links target fuel stack visited ≡ some true
        → Reach src dst links start target
    unfolding dfs
    dfs_sound zero start stack visited inv h = cc
    dfs_sound (suc fuel) start [] visited inv h = cc
    dfs_sound (suc fuel) start (node ∷ stack) visited inv h = elim (Text-cases node target) [
      | inl (e, t) ↦ subst (λ x. Reach src dst links start x) e (inv node (inl refl))
      | inr (ne, f) ↦ elim (Bool-cases (contains visited node)) [
        | inl old ↦ dfs_sound fuel start stack visited (λ n m. inv n (inr m)) (rw (f, old) at h)
        | inr new ↦
            dfs_sound fuel start (push_all (next src dst links node) stack) (node ∷ visited)
              (λ n m. elim (In-push_all n (next src dst links node) stack m) [
                | inl row ↦ Reach-trans (inv node (inl refl)) (next_sound node n row)
                | inr old ↦ inv n (inr old)
              ])
              (rw (f, new) at h)
      ]
    ]

    -- Every visited node is not the target, and its successors are visited or on the stack.
    abbrev IsExplored : List String → List String → Type 0
    IsExplored visited stack =
        (v : String)
        → In v visited
        → (v ≢ target)
          × ((l : TaskLink) → In l links → src l ≡ v → In (dst l) visited ⊎ In (dst l) stack)

    -- A search that says false has closed a set of nodes that holds the stack and not the target.
    pub dfs_closed :
        (fuel : ℕ) (stack visited : List String)
        → IsExplored visited stack
        → dfs src dst links target fuel stack visited ≡ some false
        → (all : List String) × ((n : String) → In n visited ⊎ In n stack → In n all)
          × IsExplored all []
    unfolding dfs
    dfs_closed zero stack visited inv h = cc
    dfs_closed (suc fuel) [] visited inv h =
        (visited, λ n m. elim m [ inl v ↦ v | inr s ↦ absurd s ], inv)
    dfs_closed (suc fuel) (node ∷ stack) visited inv h = elim (Text-cases node target) [
      | inl (e, t) ↦ cc (rw t at h)
      | inr (ne, f) ↦ elim (Bool-cases (contains visited node)) [
        | inl old ↦
            let seen = contains→In visited node old in
            let (all, sub, cl) =
              dfs_closed fuel stack visited
                (λ v m.
                  let (a, b) = inv v m in
                  (
                    a,
                    λ l i e. elim (b l i e) [
                      | inl x ↦ inl x
                      | inr (inl x) ↦ inl (subst (λ y. In y visited) x seen)
                      | inr (inr x) ↦ inr x
                    ],
                  ))
                (rw (f, old) at h) in
            (
              all,
              λ n m. elim m [
                | inl x ↦ sub n (inl x)
                | inr (inl x) ↦ sub n (inl (subst (λ y. In y visited) x seen))
                | inr (inr x) ↦ sub n (inr x)
              ],
              cl,
            )
        | inr new ↦
            let rows = next src dst links node in
            let (all, sub, cl) =
              dfs_closed fuel (push_all rows stack) (node ∷ visited)
                (λ v m. elim m [
                  | inl e ↦ (
                    λ t. ne (e ∙ t),
                    λ l i s.
                        inr (
                          push_all-In (dst l) rows stack
                            (inl (next_complete node l i (s ∙ sym e)))),
                  )
                  | inr o ↦
                      let (a, b) = inv v o in
                      (
                        a,
                        λ l i s. elim (b l i s) [
                          | inl x ↦ inl (inr x)
                          | inr (inl x) ↦ inl (inl x)
                          | inr (inr x) ↦ inr (push_all-In (dst l) rows stack (inr x))
                        ],
                      )
                ])
                (rw (f, new) at h) in
            (
              all,
              λ n m. elim m [
                | inl x ↦ sub n (inl (inr x))
                | inr (inl x) ↦ sub n (inl (inl x))
                | inr (inr x) ↦ sub n (inr (push_all-In n rows stack (inr x)))
              ],
              cl,
            )
      ]
    ]

    -- A path cannot leave an explored set.
    pub Explored-Reach :
        (all : List String) {a b : String}
        → IsExplored all []
        → In a all
        → Reach src dst links a b
        → b ≢ target
    Explored-Reach all cl m here = (cl _ m).0
    Explored-Reach all {a} cl m (along l i e r) = elim ((cl a m).1 l i e) [
      | inl x ↦ Explored-Reach all cl x r
      | inr x ↦ absurd x
    ]
