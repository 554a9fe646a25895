-- ===== src/Workflow/Queue.antt =====
-- The state of the loop of _topological_sort in orchestration/workflow.py: what `in_degree` and the queue
-- hold, and that one `in_degree[t.id] -= 1` keeps it.
use simple_a2a_registry.Workflow.{degree, adjust, enqueue, relax}
use simple_a2a_registry.Workflow.Edges.{
  waits, degree-adjust_same, degree-adjust_other, is_some-adjust,
}
use simple_a2a_registry.Prelude.{
  ℕ, zero, suc, arith, ◌-◌, String, true, false, inl, inr, ◌≡◌, ◌⊎◌, refl, sym, ap, ◌∙◌, some, List,
  [], ◌∷◌, ◌++◌, contains, is_some, ◌==◌, Option-cases, Text-cases, In, In-append_cases,
  In-append_left, In-append_right,
}

-- No text twice.
abbrev pub IsDistinct : List String → Type 0
IsDistinct [] = Unit
IsDistinct (x ∷ xs) = (In x xs → ⊥) × IsDistinct xs

pub IsDistinct-snoc :
    (c : String) (q : List String) → IsDistinct q → (In c q → ⊥) → IsDistinct (q ++ c ∷ [])
IsDistinct-snoc c [] h n = (λ m. m, tt)
IsDistinct-snoc c (x ∷ q) (h, hs) n = (
  λ m. elim (In-append_cases x q (c ∷ []) m) [
    | inl i ↦ h i
    | inr (inl e) ↦ n (inl (sym e))
    | inr (inr i) ↦ i
  ],
  IsDistinct-snoc c q hs (λ m. n (inr m)),
)

-- What holds between two steps, where `done` are the ids that were taken from the queue and `need k` is
-- the number of dependencies that `k` waits for.
pub record Holds (ids done : List String) (need : String → ℕ) (d : List (String × ℕ))
    (q : List String) : Type 0 where
  pub knows : (k : String) → is_some (degree k d) ≡ contains ids k
  pub counts : (k : String) → contains ids k ≡ true → waits k d ≡ need k
  pub queued : (k : String) → In k q → (contains ids k ≡ true) × (need k ≡ 0)
  pub fresh : (k : String) → In k q → In k done → ⊥
  pub taken : (k : String) → In k done → need k ≡ 0
  pub once : IsDistinct q
  pub found : (k : String) → contains ids k ≡ true → need k ≡ 0 → In k done ⊎ In k q

pub known_degree :
    (k : String) (d : List (String × ℕ))
    → is_some (degree k d) ≡ true
    → degree k d ≡ some (waits k d)
known_degree k d h = elim (Option-cases (degree k d)) [
  | inl e ↦ cc (rw e at h)
  | inr (n, e) ↦ rw e refl
]

enqueue-In :
    (c k : String) (n : ℕ) (q : List String)
    → In k (enqueue (some n) c q)
    → In k q ⊎ ((c ≡ k) × (n ≡ 0))
enqueue-In c k zero q m = elim (In-append_cases k q (c ∷ []) m) [
  | inl i ↦ inl i
  | inr (inl e) ↦ inr (e, refl)
  | inr (inr i) ↦ absurd i
]
enqueue-In c k (suc n) q m = inl m

In-enqueue : (c k : String) (n : ℕ) (q : List String) → In k q → In k (enqueue (some n) c q)
In-enqueue c k zero q m = In-append_left k q (c ∷ []) m
In-enqueue c k (suc n) q m = m

enqueue-IsDistinct :
    (c : String) (n : ℕ) (q : List String)
    → IsDistinct q
    → (In c q → ⊥)
    → IsDistinct (enqueue (some n) c q)
enqueue-IsDistinct c zero q h new = IsDistinct-snoc c q h new
enqueue-IsDistinct c (suc n) q h new = h

-- One dependency less for `c`.
module _ (ids done : List String) (need after : String → ℕ) (c : String) (d : List (String × ℕ))
    (q : List String) (h : Holds ids done need d q) (known : contains ids c ≡ true)
    (less : need c ≡ suc (after c))
    (others : (k : String) → (c == k) ≡ false → need k ≡ after k) where
  relax_degree : degree c (adjust (λ n. n - 1) c d) ≡ some (after c)
  relax_degree =
      degree-adjust_same (λ n. n - 1) c d (waits c d) (known_degree c d (h.knows c ∙ known))
      ∙ ap (λ n. some n) (omega (arith, h.counts c known, less))

  not_c : (k : String) → need k ≡ 0 → (c ≡ k) → ⊥
  not_c k none_left same = let here = ap need same in omega arith

  -- A task that waited for nothing is not `c`, and waits for nothing still.
  still_none : (k : String) → need k ≡ 0 → after k ≡ 0
  still_none k none_left = elim (Text-cases c k) [
    | inl (same, _) ↦ absurd (not_c k none_left same)
    | inr (_, other) ↦ sym (others k other) ∙ none_left
  ]

  relax-counts : (k : String) → contains ids k ≡ true → waits k (adjust (λ n. n - 1) c d) ≡ after k
  relax-counts k known = elim (Text-cases c k) [
    | inl (same, _) ↦ rw (← same, relax_degree) refl
    | inr (_, other) ↦
        rw (degree-adjust_other (λ n. n - 1) c k d other) (h.counts k known ∙ others k other)
  ]

  relax-found :
      (k : String)
      → contains ids k ≡ true
      → after k ≡ 0
      → In k done ⊎ In k (enqueue (some (after c)) c q)
  relax-found k known none_left = elim (Text-cases c k) [
    | inl (same, _) ↦ inr (rw (same, none_left) (In-append_right k q (k ∷ []) (inl refl)))
    | inr (_, other) ↦ elim (h.found k known (others k other ∙ none_left)) [
      | inl i ↦ inl i
      | inr i ↦ inr (In-enqueue c k (after c) q i)
    ]
  ]

  pub relax-Holds : Holds ids done after (relax c (d, q)).0 (relax c (d, q)).1
  relax-Holds = rw relax_degree (record {
    knows = λ k. is_some-adjust (λ n. n - 1) c k d ∙ h.knows k;
    counts = relax-counts;
    queued = λ k m. elim (enqueue-In c k (after c) q m) [
      | inl i ↦ ((h.queued k i).0, still_none k (h.queued k i).1)
      | inr (same, zero_left) ↦ (rw (← same) known, rw (← same) zero_left)
    ];
    fresh = λ k m t. elim (enqueue-In c k (after c) q m) [
      | inl i ↦ h.fresh k i t
      | inr (same, _) ↦ not_c k (h.taken k t) same
    ];
    taken = λ k t. still_none k (h.taken k t);
    once = enqueue-IsDistinct c (after c) q h.once (λ m. not_c c (h.queued c m).1 refl);
    found = relax-found;
  })
