-- ===== src/Delegation/Accepts.antt =====
-- verify_delegation_token of security/dtm.py on tokens that it accepts: those that were minted and
-- persisted, and signed ones that were never persisted.
use simple_a2a_registry.Delegation.{
  ticks, has_dot, verify_delegation_token, DelegatedTaskToken, TokenRow, find_jti, row_of,
  persist_token_hash, mark_used, accepted, check_binding, consume_as, minimal_token, verify_row,
  verify_jti, was_used, verify_signed, MintRequest, ManagerConfig, mint_delegation_token, minted,
  attenuate_scope,
}
use simple_a2a_registry.Prelude.{
  Option, ℕ, arith, some_inj, String, Bool, true, false, ◌&&◌, not, inl, inr, ◌≡◌, refl, none, some,
  List, [], ◌∷◌, ◌++◌, ◌==◌, Bool-cases, Option-cases, text_eq_self, ltb, ◌≤◌, ◌+◌, ◌*◌, ◌/◌, ◌∙◌,
  contains, if◌then◌else◌, or_else,
}

find_jti-append :
    (j : String) (r : TokenRow) (rows : List TokenRow)
    → find_jti j rows ≡ none
    → r.jti ≡ j
    → find_jti j (rows ++ r ∷ []) ≡ some r
unfolding find_jti
find_jti-append j r [] h e = rw (e, text_eq_self j) refl
find_jti-append j r (q ∷ rows) h e = elim (Bool-cases (q.jti == j)) [
  | inl y ↦ cc (rw y at h)
  | inr n ↦ rw n (find_jti-append j r rows (rw n at h) e)
]

late : (now exp : ℕ) → now ≤ exp → ltb exp now ≡ false
late now exp le = ground arith

-- What a minted token is bound to.
mint_delegation_token_binding :
    (cfg : ManagerConfig) (now : ℕ) (a : MintRequest) (t : DelegatedTaskToken)
    → mint_delegation_token cfg now a ≡ some t
    → (t.task_id ≡ a.task_id)
      × (t.sub ≡ a.sub)
      × (t.exp ≡ now + or_else a.ttl cfg.default_ttl * ticks)
unfolding mint_delegation_token minted
mint_delegation_token_binding cfg now a t h =
    elim (Option-cases (attenuate_scope a.effective_scope a.restriction)) [
      | inl n ↦ cc (rw (mint_delegation_token, n) at h)
      | inr (s, e) ↦
          let same = some_inj (rw (mint_delegation_token, e) at h) in rw (← same) (refl, refl, refl)
    ]

check_binding_passes :
    (now exp : ℕ) (task_id sub agent_id : String)
    → now ≤ exp
    → not (sub == "") && not (sub == agent_id) ≡ false
    → check_binding now exp task_id sub task_id agent_id ≡ none
unfolding check_binding
check_binding_passes now exp task_id sub agent_id le ok =
    rw (check_binding, late now exp le, text_eq_self task_id, ok) refl

persist_token_hash_new :
    (now : ℕ) (tasks : List String) (t : DelegatedTaskToken) (rows : List TokenRow)
    → find_jti t.jti rows ≡ none
    → contains tasks t.task_id ≡ true
    → persist_token_hash now tasks t rows ≡ some (rows ++ row_of now t ∷ [])
unfolding persist_token_hash
persist_token_hash_new now tasks t rows fresh known = rw (fresh, known) refl

-- The row of a token, used at the time that is given.
abbrev used_row : ℕ → DelegatedTaskToken → Option ℕ → TokenRow
used_row now t used = record (row_of now t) { used_at = used }

mark_used-append :
    (now later : ℕ) (t : DelegatedTaskToken) (rows : List TokenRow)
    → find_jti t.jti rows ≡ none
    → mark_used later t.jti (rows ++ row_of now t ∷ []) ≡ rows ++ used_row now t (some later) ∷ []
unfolding find_jti mark_used
mark_used-append now later t [] h = rw (text_eq_self t.jti) refl
mark_used-append now later t (q ∷ rows) h = elim (Bool-cases (q.jti == t.jti)) [
  | inl y ↦ cc (rw y at h)
  | inr n ↦ rw (n, mark_used-append now later t rows (rw n at h)) refl
]

consume_as_new :
    (now later : ℕ) (consume : Bool) (t u : DelegatedTaskToken) (rows : List TokenRow)
    → find_jti t.jti rows ≡ none
    → consume_as later consume t.jti u (rows ++ row_of now t ∷ [])
      ≡ (accepted u, rows ++ used_row now t (if consume then some later else none) ∷ [])
consume_as_new now later true t u rows h = rw (mark_used-append now later t rows h) refl
consume_as_new now later false t u rows h = refl

verify_jti_unused :
    (issuer : String) (now : ℕ) (r : TokenRow) (j agent_id : String) (consume : Bool)
    (rows : List TokenRow)
    → find_jti j rows ≡ some r
    → r.used_at ≡ none
    → now ≤ r.expires_at * ticks
    → not (r.sub == "") && not (r.sub == agent_id) ≡ false
    → verify_jti issuer now j r.task_id agent_id consume rows
      ≡ consume_as now consume r.jti (minimal_token issuer j agent_id r.task_id) rows
unfolding verify_jti verify_row
verify_jti_unused issuer now r j agent_id consume rows found u le ok =
    rw
      (
        verify_jti,
        found,
        verify_row,
        check_binding_passes now (r.expires_at * ticks) r.task_id r.sub agent_id le ok,
        u,
      )
      refl

-- A whole second that the expiry reaches survives the truncation.
whole_second :
    (later s exp : ℕ) → later ≤ s * ticks → s * ticks ≤ exp → later ≤ (exp / ticks) * ticks
whole_second later s exp before reached = omega arith

mint-verify_jti :
    (cfg : ManagerConfig) (now later s : ℕ) (a : MintRequest) (t : DelegatedTaskToken)
    (agent_id : String) (consume : Bool) (rows : List TokenRow)
    → mint_delegation_token cfg now a ≡ some t
    → find_jti t.jti rows ≡ none
    → later ≤ s * ticks
    → s * ticks ≤ now + or_else a.ttl cfg.default_ttl * ticks
    → not (a.sub == "") && not (a.sub == agent_id) ≡ false
    → verify_jti cfg.issuer later t.jti a.task_id agent_id consume (rows ++ row_of now t ∷ []) ≡ (
      accepted (minimal_token cfg.issuer t.jti agent_id a.task_id),
      rows ++ used_row now t (if consume then some later else none) ∷ [],
    )
mint-verify_jti cfg now later s a t agent_id consume rows m fresh before reached ok =
    let (task, sub, exp) = mint_delegation_token_binding cfg now a t m in
    let found = find_jti-append t.jti (row_of now t) rows fresh refl in
    rw (← task) (
      verify_jti_unused cfg.issuer later (row_of now t) t.jti agent_id consume _ found refl
        (whole_second later s t.exp before (rw exp reached)) (rw sub ok)
      ∙ consume_as_new now later consume t (minimal_token cfg.issuer t.jti agent_id t.task_id) rows
          fresh)

-- A minted token whose jti is new and has no dot, for a task that is in the table, can be persisted, and
-- is then accepted up to the last whole second that its lifetime reaches: for the task it is bound
-- to, and for its subject, or for every agent where it has none. The table then has one row more,
-- which is marked with the time of the call where the token is consumed, and is unused otherwise.
pub mint-verify_delegation_token :
    (peek_exp : String → Option ℕ) (signed : String → Option DelegatedTaskToken)
    (cfg : ManagerConfig) (now later s : ℕ) (a : MintRequest) (t : DelegatedTaskToken)
    (agent_id : String) (consume : Bool) (tasks : List String) (rows : List TokenRow)
    → mint_delegation_token cfg now a ≡ some t
    → has_dot t.jti ≡ false
    → find_jti t.jti rows ≡ none
    → contains tasks a.task_id ≡ true
    → later ≤ s * ticks
    → s * ticks ≤ now + or_else a.ttl cfg.default_ttl * ticks
    → not (a.sub == "") && not (a.sub == agent_id) ≡ false
    → (stored : List TokenRow) × (persist_token_hash now tasks t rows ≡ some stored)
      × (verify_delegation_token peek_exp signed cfg.issuer later t.jti a.task_id agent_id consume
            stored
          ≡ (
            accepted (minimal_token cfg.issuer t.jti agent_id a.task_id),
            rows
                ++ record {
                  jti = t.jti;
                  task_id = t.task_id;
                  sub = t.sub;
                  origin_agent = t.origin_agent;
                  scope = t.effective_scope;
                  depth = t.depth;
                  expires_at = t.exp / ticks;
                  used_at = if consume then some later else none;
                  created_at = now;
                }
                  ∷ [],
          ))
unfolding verify_delegation_token
mint-verify_delegation_token peek_exp signed cfg now later s a t agent_id consume tasks rows m plain
      fresh known before reached ok =
    let (task, sub, exp) = mint_delegation_token_binding cfg now a t m in
    (
      rows ++ row_of now t ∷ [],
      persist_token_hash_new now tasks t rows fresh (rw task known),
      rw plain
          (mint-verify_jti cfg now later s a t agent_id consume rows m fresh before reached ok),
    )

find_jti-was_used :
    (j : String) (rows : List TokenRow) → find_jti j rows ≡ none → was_used j rows ≡ false
unfolding find_jti was_used
find_jti-was_used j [] h = refl
find_jti-was_used j (r ∷ rows) h = elim (Bool-cases (r.jti == j)) [
  | inl e ↦ cc (rw e at h)
  | inr n ↦ rw n (find_jti-was_used j rows (rw n at h))
]

mark_used_absent :
    (now : ℕ) (j : String) (rows : List TokenRow)
    → find_jti j rows ≡ none
    → mark_used now j rows ≡ rows
unfolding find_jti mark_used
mark_used_absent now j [] h = refl
mark_used_absent now j (r ∷ rows) h = elim (Bool-cases (r.jti == j)) [
  | inl e ↦ cc (rw e at h)
  | inr n ↦ rw (n, mark_used_absent now j rows (rw n at h)) refl
]

-- A signed token whose jti has no row is accepted with `consume` and leaves no trace, so that nothing
-- stops it from being shown again.
pub verify_signed_untracked :
    (now : ℕ) (t : DelegatedTaskToken) (agent_id : String) (consume : Bool) (rows : List TokenRow)
    → find_jti t.jti rows ≡ none
    → now ≤ t.exp
    → not (t.sub == "") && not (t.sub == agent_id) ≡ false
    → verify_signed now t t.task_id agent_id consume rows ≡ (accepted t, rows)
unfolding verify_signed
verify_signed_untracked now t agent_id true rows fresh le ok =
    rw
      (
        verify_signed,
        check_binding_passes now t.exp t.task_id t.sub agent_id le ok,
        find_jti-was_used t.jti rows fresh,
        mark_used_absent now t.jti rows fresh,
      )
      refl
verify_signed_untracked now t agent_id false rows fresh le ok =
    rw
      (
        verify_signed,
        check_binding_passes now t.exp t.task_id t.sub agent_id le ok,
        find_jti-was_used t.jti rows fresh,
      )
      refl
