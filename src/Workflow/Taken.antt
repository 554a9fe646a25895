-- ===== src/Workflow/Taken.antt =====
-- One round of the loop of _topological_sort in orchestration/workflow.py: an id is taken from the queue,
-- and its dependents wait for one dependency less.
use simple_a2a_registry.Workflow.{degree, relax}
use simple_a2a_registry.Workflow.Edges.{relax_edges}
use simple_a2a_registry.Workflow.Queue.{Holds, relax-Holds}
use simple_a2a_registry.Prelude.{
  ℕ, suc, arith, ◌+◌, String, Bool, true, false, not, ◌&&◌, inl, inr, ◌≡◌, refl, sym, ap, ◌∙◌,
  subst, List, [], ◌∷◌, contains, is_some, ◌==◌, if◌then◌else◌, Bool-cases, Text-cases,
  text_eq_self, In, contains→In,
}

-- How many of the pairs are a dependency of `k` that is a task and is not done.
unfoldable pub pending : (ids done : List String) (k : String) → List (String × String) → ℕ
pending ids done k [] = 0
pending ids done k ((c, m) ∷ e) =
    (if c == k && (contains ids m && not (contains done m)) then 1 else 0) + pending ids done k e

-- How many of the pairs are the dependency of `k` on `n`.
unfoldable pub hits : (n k : String) → List (String × String) → ℕ
hits n k [] = 0
hits n k ((c, m) ∷ e) = (if c == k && m == n then 1 else 0) + hits n k e

eq_swap : (s t : String) → (s == t) ≡ (t == s)
eq_swap s t = elim (Text-cases s t) [
  | inl (same, _) ↦ rw same refl
  | inr (different, no_match) ↦ elim (Text-cases t s) [
    | inl (same, _) ↦ absurd (different (sym same))
    | inr (_, no_other) ↦ no_match ∙ sym no_other
  ]
]

-- Taking `n` from the queue leaves each task that many dependencies less.
pending-hits :
    (ids done : List String) (n k : String) (e : List (String × String))
    → contains ids n ≡ true
    → contains done n ≡ false
    → pending ids done k e ≡ pending ids (n ∷ done) k e + hits n k e
unfolding pending hits contains
pending-hits ids done n k [] known new = refl
pending-hits ids done n k ((c, m) ∷ e) known new =
    let ih = pending-hits ids done n k e known new in
    elim (Bool-cases (c == k)) [
      | inr o ↦ rw o (omega (arith, ih))
      | inl s ↦ elim (Text-cases n m) [
        | inl (same, _) ↦ rw (s, ← same, known, new, text_eq_self n) (omega (arith, ih))
        | inr (_, other) ↦ rw (s, eq_swap m n, other) (omega (arith, ih))
      ]
    ]

-- Every pair is of a task.
abbrev pub AllKnown : List String → List (String × String) → Type 0
AllKnown ids [] = Unit
AllKnown ids ((c, m) ∷ e) = (contains ids c ≡ true) × AllKnown ids e

relax_edges_skip :
    (n c m : String) (e : List (String × String)) (s : List (String × ℕ) × List String)
    → (m == n) ≡ false
    → relax_edges n ((c, m) ∷ e) s ≡ relax_edges n e s
unfolding relax_edges
relax_edges_skip n c m e s o =
    ap (λ (b : Bool). relax_edges n e (if b && is_some (degree c s.0) then relax c s else s)) o

relax_edges_hit :
    (n c m : String) (e : List (String × String)) (s : List (String × ℕ) × List String)
    → (m == n) ≡ true
    → is_some (degree c s.0) ≡ true
    → relax_edges n ((c, m) ∷ e) s ≡ relax_edges n e (relax c s)
unfolding relax_edges
relax_edges_hit n c m e s h k =
    ap (λ (b : Bool). relax_edges n e (if b && is_some (degree c s.0) then relax c s else s)) h
    ∙ ap (λ (b : Bool). relax_edges n e (if b then relax c s else s)) k

hits_skip :
    (n k c m : String) (e : List (String × String))
    → (m == n) ≡ false
    → hits n k ((c, m) ∷ e) ≡ hits n k e
unfolding hits
hits_skip n k c m e o = elim (Bool-cases (c == k)) [
  | inl h ↦ rw (h, o) (omega arith)
  | inr h ↦ rw h (omega arith)
]

hits_here :
    (n c m : String) (e : List (String × String))
    → (m == n) ≡ true
    → hits n c ((c, m) ∷ e) ≡ suc (hits n c e)
unfolding hits
hits_here n c m e h = rw (h, text_eq_self c) (omega arith)

hits_other :
    (n k c m : String) (e : List (String × String))
    → (c == k) ≡ false
    → hits n k ((c, m) ∷ e) ≡ hits n k e
unfolding hits
hits_other n k c m e h = rw h (omega arith)

Holds-same :
    (ids done : List String) (need after : String → ℕ) (d : List (String × ℕ)) (q : List String)
    → ((k : String) → need k ≡ after k)
    → Holds ids done need d q
    → Holds ids done after d q
Holds-same ids done need after d q p h =
    subst (λ (f : String → ℕ). Holds ids done f d q) (λ i k. p k i) h

-- The inner loop over the pairs `e` that are left, after `n` was taken.
relax_edges-Holds :
    (ids done : List String) (base : String → ℕ) (n : String) (e : List (String × String))
    (d : List (String × ℕ)) (q : List String)
    → AllKnown ids e
    → Holds ids done (λ k. base k + hits n k e) d q
    → Holds ids done base (relax_edges n e (d, q)).0 (relax_edges n e (d, q)).1
unfolding relax_edges hits
relax_edges-Holds ids done base n [] d q all h = Holds-same ids done _ base d q (λ k. omega arith) h
relax_edges-Holds ids done base n ((c, m) ∷ e) d q (known, all) h = elim (Bool-cases (m == n)) [
  | inr o ↦ rw (relax_edges_skip n c m e (d, q) o) (
      relax_edges-Holds ids done base n e d q all
        (Holds-same ids done _ _ d q (λ k. ap (λ x. base k + x) (hits_skip n k c m e o)) h))
  | inl s ↦ rw (relax_edges_hit n c m e (d, q) s (h.knows c ∙ known)) (
      relax_edges-Holds ids done base n e _ _ all (
        relax-Holds ids done _ (λ k. base k + hits n k e) c d q h known
          (omega (arith, hits_here n c m e s))
          (λ k other. ap (λ x. base k + x) (hits_other n k c m e other))))
]

pub not_contained : (x : String) (xs : List String) → (In x xs → ⊥) → contains xs x ≡ false
not_contained x xs h = elim (Bool-cases (contains xs x)) [
  | inl e ↦ absurd (h (contains→In xs x e))
  | inr n ↦ n
]

-- A round of the loop.
pub round-Holds :
    (ids done : List String) (n : String) (e : List (String × String)) (d : List (String × ℕ))
    (q : List String)
    → AllKnown ids e
    → Holds ids done (λ k. pending ids done k e) d (n ∷ q)
    → Holds ids
        (n ∷ done)
        (λ k. pending ids (n ∷ done) k e)
        (relax_edges n e (d, q)).0
        (relax_edges n e (d, q)).1
round-Holds ids done n e d q all h =
    let split = λ (k : String).
      pending-hits ids done n k e (h.queued n (inl refl)).0
        (not_contained n done (h.fresh n (inl refl))) in
    relax_edges-Holds ids (n ∷ done) (λ k. pending ids (n ∷ done) k e) n e d q all
      (Holds-same ids (n ∷ done) (λ k. pending ids done k e) _ d q split
        (record {
          knows = h.knows;
          counts = h.counts;
          queued = λ k m. h.queued k (inr m);
          fresh = λ k m t. elim t [ inl same ↦ h.once.0 (rw same m) | inr i ↦ h.fresh k (inr m) i ];
          taken = λ k t. elim t [ inl same ↦ (h.queued k (inl same)).1 | inr i ↦ h.taken k i ];
          once = h.once.1;
          found = λ k known zero_left. elim (h.found k known zero_left) [
            | inl i ↦ inl (inr i)
            | inr (inl same) ↦ inl (inl same)
            | inr (inr i) ↦ inr i
          ];
        }))
