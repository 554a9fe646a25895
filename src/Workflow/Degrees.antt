-- ===== src/Workflow/Degrees.antt =====
-- The dict `in_degree` of _topological_sort in orchestration/workflow.py: its keys, as the comprehension
-- makes them, and the ids of which its number is zero.
use mathlib.Core.Bool.{or_assoc, or-false}
use simple_a2a_registry.Workflow.{WorkflowTaskSpec, degree, initial_degrees, roots}
use simple_a2a_registry.Workflow.Edges.{ids_of, waits}
use simple_a2a_registry.Workflow.Queue.{IsDistinct, IsDistinct-snoc}
use simple_a2a_registry.Prelude.{
  ℕ, arith, String, true, ◌||◌, inl, inr, ◌≡◌, refl, sym, ap, ◌∙◌, some, List, [], ◌∷◌, ◌++◌, map,
  contains, is_some, ◌==◌, nat_eq, if◌then◌else◌, Bool-cases, some_inj, Text-cases, In,
}

abbrev pub keys : List (String × ℕ) → List String
keys = map (λ (p : String × ℕ). p.0)

-- A list of numbered ids in which every number is zero.
abbrev pub AllZero : List (String × ℕ) → Type 0
AllZero [] = Unit
AllZero ((j, n) ∷ d) = (n ≡ 0) × AllZero d

AllZero-snoc : (j : String) (d : List (String × ℕ)) → AllZero d → AllZero (d ++ (j, 0) ∷ [])
AllZero-snoc j [] h = (refl, tt)
AllZero-snoc j (p ∷ d) (e, h) = (e, AllZero-snoc j d h)

pub waits-AllZero : (k : String) (d : List (String × ℕ)) → AllZero d → waits k d ≡ 0
unfolding degree
waits-AllZero k [] h = refl
waits-AllZero k ((j, n) ∷ d) (e, h) = elim (Bool-cases (j == k)) [
  | inl s ↦ rw s e
  | inr o ↦ rw o (waits-AllZero k d h)
]

degree-append :
    (k j : String) (d : List (String × ℕ))
    → is_some (degree k (d ++ (j, 0) ∷ [])) ≡ is_some (degree k d) || j == k
unfolding degree
degree-append k j [] = elim (Bool-cases (j == k)) [ inl s ↦ rw s refl | inr o ↦ rw o refl ]
degree-append k j ((i, n) ∷ d) = elim (Bool-cases (i == k)) [
  | inl s ↦ rw s refl
  | inr o ↦ rw o (degree-append k j d)
]

In-keys : (k : String) (d : List (String × ℕ)) → In k (keys d) → is_some (degree k d) ≡ true
unfolding degree
In-keys k [] m = absurd m
In-keys k ((j, n) ∷ d) m = elim (Text-cases j k) [
  | inl (_, s) ↦ rw s refl
  | inr (other, o) ↦ rw o (elim m [ inl e ↦ absurd (other e) | inr i ↦ In-keys k d i ])
]

keys-append : (d : List (String × ℕ)) (j : String) → keys (d ++ (j, 0) ∷ []) ≡ keys d ++ j ∷ []
keys-append [] j = refl
keys-append ((i, n) ∷ d) j = ap (λ ks. i ∷ ks) (keys-append d j)

-- One key of the dict comprehension.
add_key : String → List (String × ℕ) → List (String × ℕ)
add_key id d = if is_some (degree id d) then d else d ++ (id, 0) ∷ []

module _ (id : String) (d : List (String × ℕ)) where
  AllZero-add_key : AllZero d → AllZero (add_key id d)
  unfolding add_key
  AllZero-add_key z = elim (Bool-cases (is_some (degree id d))) [
    | inl s ↦ rw s z
    | inr n ↦ rw n (AllZero-snoc id d z)
  ]

  IsDistinct-add_key : IsDistinct (keys d) → IsDistinct (keys (add_key id d))
  unfolding add_key
  IsDistinct-add_key u = elim (Bool-cases (is_some (degree id d))) [
    | inl s ↦ rw s u
    | inr n ↦ rw (n, keys-append d id) (IsDistinct-snoc id (keys d) u (λ m. cc (n, In-keys id d m)))
  ]

  is_some-add_key :
      (k : String) → is_some (degree k (add_key id d)) ≡ is_some (degree k d) || id == k
  unfolding add_key
  is_some-add_key k = elim (Bool-cases (is_some (degree id d))) [
    | inr n ↦ rw n (degree-append k id d)
    | inl s ↦ elim (Text-cases id k) [
      | inl (same, test) ↦ rw (s, test, ← same, s) refl
      | inr (_, other) ↦ rw (s, other) (sym (or-false (is_some (degree k d))))
    ]
  ]

-- What `{t.id: 0 for t in tasks}` holds, over what was there before.
pub initial_degrees_lem :
    (tasks : List WorkflowTaskSpec) (d : List (String × ℕ))
    → AllZero d
    → IsDistinct (keys d)
    → AllZero (initial_degrees tasks d)
      × IsDistinct (keys (initial_degrees tasks d))
      × ((k : String)
          → is_some (degree k (initial_degrees tasks d))
            ≡ is_some (degree k d) || contains (ids_of tasks) k)
unfolding initial_degrees contains add_key
initial_degrees_lem [] d z u = (z, u, λ k. sym (or-false (is_some (degree k d))))
initial_degrees_lem (t ∷ tasks) d z u =
    let (zeros, distinct_keys, known) =
      initial_degrees_lem tasks (add_key t.id d) (AllZero-add_key t.id d z)
        (IsDistinct-add_key t.id d u) in
    (
      zeros,
      distinct_keys,
      λ k.
          known k
          ∙ ap (λ b. b || contains (ids_of tasks) k) (is_some-add_key t.id d k)
          ∙ or_assoc (is_some (degree k d)) _ _,
    )

In-roots_key : (k : String) (d : List (String × ℕ)) → In k (roots d) → In k (keys d)
unfolding roots
In-roots_key k [] m = absurd m
In-roots_key k ((j, n) ∷ d) m = elim (Bool-cases (nat_eq n 0)) [
  | inl z ↦ elim (rw z at m) [ inl e ↦ inl e | inr i ↦ inr (In-roots_key k d i) ]
  | inr p ↦ inr (In-roots_key k d (rw p at m))
]

pub roots-IsDistinct : (d : List (String × ℕ)) → IsDistinct (keys d) → IsDistinct (roots d)
unfolding roots
roots-IsDistinct [] u = tt
roots-IsDistinct ((j, n) ∷ d) (new, u) = elim (Bool-cases (nat_eq n 0)) [
  | inl z ↦ rw z (λ m. new (In-roots_key j d m), roots-IsDistinct d u)
  | inr p ↦ rw p (roots-IsDistinct d u)
]

-- The roots are the keys of the number zero.
pub In-roots :
    (k : String) (d : List (String × ℕ))
    → IsDistinct (keys d)
    → In k (roots d)
    → degree k d ≡ some 0
unfolding roots degree
In-roots k [] u m = absurd m
In-roots k ((j, n) ∷ d) (new, u) m = elim (Text-cases j k) [
  | inl (same, s) ↦ elim (Bool-cases (nat_eq n 0)) [
    | inl z ↦ rw s (ap (λ x. some x) (ground arith))
    | inr p ↦ absurd (new (rw same (In-roots_key k d (rw p at m))))
  ]
  | inr (other, o) ↦ elim (Bool-cases (nat_eq n 0)) [
    | inl z ↦ elim (rw z at m) [ inl e ↦ absurd (other e) | inr i ↦ rw o (In-roots k d u i) ]
    | inr p ↦ rw o (In-roots k d u (rw p at m))
  ]
]

pub roots-In : (k : String) (d : List (String × ℕ)) → degree k d ≡ some 0 → In k (roots d)
unfolding roots degree
roots-In k [] e = cc
roots-In k ((j, n) ∷ d) e = elim (Text-cases j k) [
  | inl (same, s) ↦ rw (some_inj (rw s at e)) (inl same)
  | inr (_, o) ↦ elim (Bool-cases (nat_eq n 0)) [
    | inl z ↦ rw z (inr (roots-In k d (rw o at e)))
    | inr p ↦ rw p (roots-In k d (rw o at e))
  ]
]
