-- ===== src/Delegation/Once.antt =====
-- verify_delegation_token of security/dtm.py with the table that persist_token_hash fills: a token is
-- consumed once.
use simple_a2a_registry.Delegation.{
  ticks, has_dot, from_jwt, verify_jwt, verify_delegation_token, token_expired, DelegatedTaskToken,
  TokenRow, find_jti, mark_used, TokenError, accepted, rejected, Verdict, check_binding, verify_row,
  verify_jti, was_used, verify_signed, token_replay,
}
use simple_a2a_registry.Prelude.{
  ◌⊎◌, ◌*◌, Option, none, false, nat_eq, ltb, not, ◌&&◌, ℕ, some_inj, String, Bool, true, inl, inr,
  ◌≡◌, ap, subst, refl, some, List, [], ◌∷◌, ◌==◌, is_some, Bool-cases, Option-cases, eq_iff,
}

-- An answer that refuses the token and leaves the table as it is.
abbrev pub Refuses : Verdict × List TokenRow → List TokenRow → Type 0
Refuses answer rows = (e : TokenError) × (answer ≡ (rejected e, rows))

-- A row of the token is there, and it is marked.
abbrev pub IsSpent : String → List TokenRow → Type 0
IsSpent j rows = (r : TokenRow) × (find_jti j rows ≡ some r) × (is_some r.used_at ≡ true)

find_jti-mark_used :
    (now : ℕ) (j : String) (r : TokenRow) (rows : List TokenRow)
    → find_jti j rows ≡ some r
    → IsSpent j (mark_used now j rows)
unfolding find_jti mark_used
find_jti-mark_used now j r [] h = cc
find_jti-mark_used now j r (q ∷ rows) h = elim (Bool-cases (q.jti == j)) [
  | inl e ↦ elim (Bool-cases (is_some q.used_at)) [
    | inl u ↦ rw (e, u) (q, rw e refl, u)
    | inr n ↦ rw (e, n) (record q { used_at = some now }, rw e refl, refl)
  ]
  | inr n ↦ rw (n, n) (find_jti-mark_used now j r rows (rw n at h))
]

was_used-IsSpent : (j : String) (rows : List TokenRow) → IsSpent j rows → was_used j rows ≡ true
unfolding find_jti was_used
was_used-IsSpent j [] (r, h, u) = cc
was_used-IsSpent j (q ∷ rows) (r, h, u) = elim (Bool-cases (q.jti == j)) [
  | inl e ↦ rw (e, some_inj (rw e at h), u) refl
  | inr n ↦ rw n (was_used-IsSpent j rows (r, rw n at h, u))
]

find_jti_name :
    (j : String) (r : TokenRow) (rows : List TokenRow) → find_jti j rows ≡ some r → r.jti ≡ j
unfolding find_jti
find_jti_name j r [] h = cc
find_jti_name j r (q ∷ rows) h = elim (Bool-cases (q.jti == j)) [
  | inl e ↦ rw (← some_inj (rw e at h)) ((eq_iff q.jti j).0 e)
  | inr n ↦ find_jti_name j r rows (rw n at h)
]

verify_jti_spent :
    (issuer : String) (now : ℕ) (j task_id agent_id : String) (consume : Bool)
    (rows : List TokenRow)
    → IsSpent j rows
    → Refuses (verify_jti issuer now j task_id agent_id consume rows) rows
unfolding verify_jti verify_row
verify_jti_spent issuer now j task_id agent_id consume rows (r, h, u) =
    elim (Option-cases
      (check_binding now (r.expires_at * ticks) r.task_id r.sub task_id agent_id)) [
        | inl n ↦ (token_replay, rw (verify_jti, h, verify_row, n, u) refl)
        | inr (e, k) ↦ (e, rw (verify_jti, h, verify_row, k) refl)
      ]

verify_signed_spent :
    (now : ℕ) (t : DelegatedTaskToken) (task_id agent_id : String) (consume : Bool)
    (rows : List TokenRow)
    → IsSpent t.jti rows
    → Refuses (verify_signed now t task_id agent_id consume rows) rows
unfolding verify_signed
verify_signed_spent now t task_id agent_id consume rows s =
    elim (Option-cases (check_binding now t.exp t.task_id t.sub task_id agent_id)) [
      | inl n ↦ (token_replay, rw (verify_signed, n, was_used-IsSpent t.jti rows s) refl)
      | inr (e, k) ↦ (e, rw (verify_signed, k) refl)
    ]

not_accepted :
    {C : Type 0} {e : TokenError} {t : DelegatedTaskToken} {rows rows' : List TokenRow}
    → ◌≡◌ {A = Verdict × List TokenRow} (rejected e, rows) (accepted t, rows')
    → C
not_accepted h =
    absurd (
      subst (λ (p : Verdict × List TokenRow). elim p.0 [ accepted _ ↦ ⊥ | rejected _ ↦ Unit ]) h tt)

verify_jti_spends :
    (issuer : String) (now : ℕ) (j task_id agent_id : String) (t : DelegatedTaskToken)
    (rows rows' : List TokenRow)
    → verify_jti issuer now j task_id agent_id true rows ≡ (accepted t, rows')
    → IsSpent j rows'
unfolding verify_jti verify_row
verify_jti_spends issuer now j task_id agent_id t rows rows' h =
    elim (Option-cases (find_jti j rows)) [
      | inl n ↦ not_accepted (rw (verify_jti, n) at h)
      | inr (r, e) ↦
          elim (Option-cases
            (check_binding now (r.expires_at * ticks) r.task_id r.sub task_id agent_id)) [
              | inr (x, k) ↦ not_accepted (rw (verify_jti, e, verify_row, k) at h)
              | inl k ↦ elim (Bool-cases (is_some r.used_at)) [
                | inl u ↦ not_accepted (rw (verify_jti, e, verify_row, k, u) at h)
                | inr n ↦
                    let after =
                      ap (λ (p : Verdict × List TokenRow). p.1)
                        (rw (verify_jti, e, verify_row, k, n) at h) in
                    subst (IsSpent j) after
                      (rw (find_jti_name j r rows e) (find_jti-mark_used now j r rows e))
              ]
            ]
    ]

module _ (peek_exp : String → Option ℕ) (signed : String → Option DelegatedTaskToken) where
  -- The text is the jti itself, or a signed token of that jti.
  abbrev pub Shows : String → String → Type 0
  Shows j s =
      (s ≡ j) ⊎ ((has_dot s ≡ true) × (u : DelegatedTaskToken) × (signed s ≡ some u) × (u.jti ≡ j))

  verify_jwt-Refuses :
      (now : ℕ) (s task_id agent_id : String) (consume : Bool) (u : DelegatedTaskToken)
      (rows : List TokenRow)
      → signed s ≡ some u
      → IsSpent u.jti rows
      → Refuses (verify_jwt peek_exp signed now s task_id agent_id consume rows) rows
  unfolding verify_jwt from_jwt
  verify_jwt-Refuses now s task_id agent_id consume u rows found spent =
      elim (Bool-cases
        (elim (peek_exp s) [ none ↦ false | some e ↦ not (nat_eq e 0) && ltb e now ])) [
          | inl late ↦ (token_expired, rw (verify_jwt, from_jwt, late) refl)
          | inr fresh ↦
              let (e, refused) = verify_signed_spent now u task_id agent_id consume rows spent in
              (e, rw (verify_jwt, from_jwt, fresh, found) refused)
        ]

  -- A token that verify_delegation_token accepted by its jti and consumed is refused from then on, whoever
  -- shows it, whenever and for whatever task, by its jti or as a signed token of that jti.
  pub consumed_once :
      (issuer : String) (now now' : ℕ) (j task_id agent_id s task_id' agent_id' : String)
      (consume : Bool) (t : DelegatedTaskToken)
      → (rows rows' : List TokenRow) → has_dot j ≡ false
      → verify_delegation_token peek_exp signed issuer now j task_id agent_id true rows
        ≡ (accepted t, rows')
      → Shows j s
      → Refuses
          (verify_delegation_token peek_exp signed issuer now' s task_id' agent_id' consume rows')
          rows'
  unfolding verify_delegation_token
  consumed_once issuer now now' j task_id agent_id s task_id' agent_id' consume t rows rows' plain h
        shows =
      let spent = verify_jti_spends issuer now j task_id agent_id t rows rows' (rw plain at h) in
      elim shows [
        | inl same ↦
            rw (same, plain) (verify_jti_spent issuer now' j task_id' agent_id' consume rows' spent)
        | inr (dot, u, found, same) ↦
            rw dot
              (verify_jwt-Refuses now' s task_id' agent_id' consume u rows' found (rw same spent))
      ]
