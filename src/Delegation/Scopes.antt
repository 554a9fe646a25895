-- ===== src/Delegation/Scopes.antt =====
-- The scopes of security/dtm.py: attenuate_scope, alone and inside mint_delegation_token.
use simple_a2a_registry.Delegation.{
  Restriction, mapped, remap, attenuated_set, attenuate_by, attenuate_scope, is_restricting,
}
use simple_a2a_registry.Prelude.{
  arith, some_inj, String, inl, inr, ◌≡◌, sym, subst, Option, none, some, List, contains, ◌==◌,
  split_words, join_words, sorted, distinct, In, In-map, In-select, In-sorted_iff, In-distinct_iff,
  contains→In, split_words-join_words, AllWords, AllWords-intro, AllWords-In, split_words-AllWords,
  Bool-cases, Option-cases,
}

remap-In :
    (parent : List String) (m : List (String × String)) (x : String)
    → In x parent
    → In (remap parent m x) parent
remap-In parent m x i = elim (Bool-cases (contains parent (mapped m x))) [
  | inl e ↦ rw e (contains→In parent (mapped m x) e)
  | inr n ↦ rw n i
]

-- No rule brings in a scope that the parent does not have.
attenuated_set-In :
    (parent : List String) (r : Restriction) (x : String)
    → In x (attenuated_set parent r)
    → In x parent
unfolding attenuated_set
attenuated_set-In parent r x h = elim (Option-cases r.exclude) [
  | inr (ex, e) ↦ (In-select _ x parent (rw e at h)).0
  | inl e ↦ elim (Option-cases r.reduce_to) [
    | inr (al, k) ↦ (In-select _ x parent (rw (e, k) at h)).0
    | inl k ↦ elim (Option-cases r.mapping) [
      | inl n ↦ rw (e, k, n) at h
      | inr (m, q) ↦
          let (a, i, same) = In-map _ x parent ((In-distinct_iff x _).0 (rw (e, k, q) at h)) in
          subst (λ y. In y parent) same (remap-In parent m a i)
    ]
  ]
]

left : String → Restriction → List String
left parent r = sorted (attenuated_set (distinct (split_words parent)) r)

left-In :
    (parent : String) (r : Restriction) (x : String)
    → In x (left parent r)
    → In x (split_words parent)
unfolding left
left-In parent r x h = (In-distinct_iff x _).0 (attenuated_set-In _ r x ((In-sorted_iff x _).0 h))

left-AllWords : (parent : String) (r : Restriction) → AllWords (left parent r)
left-AllWords parent r =
    AllWords-intro (left parent r) (λ w i.
      AllWords-In (split_words parent) w (split_words-AllWords parent) (left-In parent r w i))

attenuate_by-join_words :
    (parent s : String) (r : Restriction)
    → attenuate_by parent r ≡ some s
    → join_words (left parent r) ≡ s
unfolding attenuate_by left
attenuate_by-join_words parent s r h = elim (Bool-cases (join_words (left parent r) == "")) [
  | inl e ↦ ground (arith, h, e)
  | inr n ↦ ground (arith, h, n)
]

-- What is left of a scope consists of the texts that the rule keeps, and of no others.
split_words-attenuate_by :
    (parent s : String) (r : Restriction)
    → attenuate_by parent r ≡ some s
    → split_words s ≡ left parent r
split_words-attenuate_by parent s r h =
    rw (← attenuate_by-join_words parent s r h) (split_words-join_words _ (left-AllWords parent r))

-- Every scope of an attenuated text is one of the parent's.
pub attenuate_scope_within :
    (parent s : String) (r : Option Restriction) (w : String)
    → attenuate_scope parent r ≡ some s
    → In w (split_words s)
    → In w (split_words parent)
unfolding attenuate_scope
attenuate_scope_within parent s none w h i = subst (λ x. In w (split_words x)) (sym (some_inj h)) i
attenuate_scope_within parent s (some r) w h i = elim (Bool-cases (is_restricting r)) [
  | inl e ↦ left-In parent r w (rw (split_words-attenuate_by parent s r (rw e at h)) at i)
  | inr n ↦ subst (λ x. In w (split_words x)) (sym (some_inj (rw n at h))) i
]
