-- ===== src/Delegation.antt =====
-- The delegated tokens of security/dtm.py: attenuate_scope, and DelegatedTokenManager with its table
-- `delegation_tokens`. Reading a signed token is the business of auth.py and its cryptography, so the
-- two things that from_jwt learns from it are parameters: `peek_exp` gives the expiry that the
-- unverified payload names, or none where the text does not decode, and `signed` gives the token where
-- the signature is good.
pub mod Scopes
pub mod Once
pub mod Accepts
use simple_a2a_registry.Prelude.{
  ℕ, ◌+◌, ◌*◌, ◌/◌, String, Bool, true, false, ◌&&◌, ◌||◌, not, ◌⊎◌, inl, inr, Option, none, some,
  List, [], ◌∷◌, ◌++◌, map, select, contains, ltb, is_some, or_else, truthy, nat_eq, ◌==◌,
  if◌then◌else◌, split_words, join_words, sorted, distinct,
}
use Prim.Native.Char.{code}
use Prim.Native.String

-- A clock value, as time.time() gives it, is a whole number of microseconds; an expiry in the table
-- is a whole number of seconds, and so is a lifetime.
abbrev pub ticks : ℕ
ticks = 1000000

-- One entry of a delegation chain.
pub record Hop : Type 0 where
  pub agent : String
  pub action : String
  pub scope : String
  pub timestamp : ℕ

pub record DelegatedTaskToken : Type 0 where
  pub jti : String
  pub iss : String
  pub sub : String
  pub iat : ℕ
  pub exp : ℕ
  pub origin_agent : String
  pub origin_tenant : String
  pub delegation_chain : List Hop
  pub effective_scope : String
  pub attenuated_from : String
  pub max_depth : ℕ
  pub depth : ℕ
  pub allowed_callees : Option (List String)
  pub task_id : String

-- The dict `restriction`: its three keys that are read, and whether it has any other.
pub record Restriction : Type 0 where
  pub exclude : Option (List String)
  pub reduce_to : Option (List String)
  pub mapping : Option (List (String × String))
  pub has_others : Bool

-- `bool(restriction)`
abbrev pub is_restricting : Restriction → Bool
is_restricting r = is_some r.exclude || (is_some r.reduce_to || (is_some r.mapping || r.has_others))

-- `mapping.get(s, s)`; the last entry of a key is the one that a dict keeps.
unfoldable pub mapped : List (String × String) → String → String
mapped [] s = s
mapped ((k, v) ∷ m) s = if k == s then v else mapped m s

-- The scope that stands for `s` in the result of a map.
abbrev pub remap : List String → List (String × String) → String → String
remap parent m s = if contains parent (mapped m s) then mapped m s else s

-- The set `result`, for the set of the parent's scopes.
unfoldable pub attenuated_set : List String → Restriction → List String
attenuated_set parent r = elim r.exclude [
  | some excluded ↦ select (λ s. not (contains excluded s)) parent
  | none ↦ elim r.reduce_to [
    | some allowed ↦ select (contains allowed) parent
    | none ↦ elim r.mapping [ some m ↦ distinct (map (remap parent m) parent) | none ↦ parent ]
  ]
]

-- `none` is the ValueError of an empty result.
unfoldable pub attenuate_by : String → Restriction → Option String
attenuate_by parent_scope r =
    let attenuated = join_words (sorted (attenuated_set (distinct (split_words parent_scope)) r)) in
    if attenuated == "" then none else some attenuated

unfoldable pub attenuate_scope : String → Option Restriction → Option String
attenuate_scope parent_scope none = some parent_scope
attenuate_scope parent_scope (some r) =
    if is_restricting r then attenuate_by parent_scope r else some parent_scope

-- The arguments of mint_delegation_token, with the uuid that it draws.
pub record MintRequest : Type 0 where
  pub jti : String
  pub sub : String
  pub task_id : String
  pub origin_agent : String
  pub origin_tenant : String
  pub effective_scope : String
  pub parent_chain : List Hop
  pub parent_scope : String
  pub restriction : Option Restriction
  pub depth : ℕ
  pub max_depth : Option ℕ
  pub ttl : Option ℕ
  pub allowed_callees : Option (List String)

-- `self._default_ttl` and `self._max_depth`
pub record ManagerConfig : Type 0 where
  pub issuer : String
  pub default_ttl : ℕ
  pub max_depth : ℕ

minted : ManagerConfig → ℕ → MintRequest → String → DelegatedTaskToken
minted cfg now a attenuated = record {
  jti = a.jti;
  iss = cfg.issuer;
  sub = a.sub;
  iat = now;
  exp = now + or_else a.ttl cfg.default_ttl * ticks;
  origin_agent = a.origin_agent;
  origin_tenant = a.origin_tenant;
  delegation_chain =
      a.parent_chain
      ++ record { agent = a.sub; action = "delegate"; scope = a.effective_scope; timestamp = now }
        ∷ [];
  effective_scope = attenuated;
  attenuated_from = if a.parent_scope == "" then a.effective_scope else a.parent_scope;
  max_depth = or_else a.max_depth cfg.max_depth;
  depth = a.depth;
  allowed_callees = a.allowed_callees;
  task_id = a.task_id;
}

unfoldable pub mint_delegation_token : ManagerConfig → ℕ → MintRequest → Option DelegatedTaskToken
unfolding minted
mint_delegation_token cfg now a = elim (attenuate_scope a.effective_scope a.restriction) [
  | none ↦ none
  | some attenuated ↦ some (minted cfg now a attenuated)
]

-- A row of `delegation_tokens`.
pub record TokenRow : Type 0 where
  pub jti : String
  pub task_id : String
  pub sub : String
  pub origin_agent : String
  pub scope : String
  pub depth : ℕ
  pub expires_at : ℕ
  pub used_at : Option ℕ
  pub created_at : ℕ

unfoldable pub find_jti : String → List TokenRow → Option TokenRow
find_jti j [] = none
find_jti j (r ∷ rows) = if r.jti == j then some r else find_jti j rows

-- `int(token.exp)` cuts the expiry down to the second.
abbrev pub row_of : ℕ → DelegatedTaskToken → TokenRow
row_of now t = record {
  jti = t.jti;
  task_id = t.task_id;
  sub = t.sub;
  origin_agent = t.origin_agent;
  scope = t.effective_scope;
  depth = t.depth;
  expires_at = t.exp / ticks;
  used_at = none;
  created_at = now;
}

-- `INSERT OR IGNORE`, where `tasks` are the ids of the table that the foreign key names: a jti that is
-- there is passed over, and `none` is the IntegrityError of a new one for a task that is not.
unfoldable pub persist_token_hash :
    ℕ → (tasks : List String) → DelegatedTaskToken → List TokenRow → Option (List TokenRow)
persist_token_hash now tasks t rows =
    if is_some (find_jti t.jti rows)
    then some rows
    else if contains tasks t.task_id
    then some (rows ++ row_of now t ∷ [])
    else none

-- `UPDATE delegation_tokens SET used_at=? WHERE jti=? AND used_at IS NULL`
unfoldable pub mark_used : ℕ → String → List TokenRow → List TokenRow
mark_used now j [] = []
mark_used now j (r ∷ rows) =
    (if r.jti == j && not (is_some r.used_at) then record r { used_at = some now } else r)
    ∷ mark_used now j rows

pub data TokenError : Type 0 where
  token_invalid token_expired task_mismatch subject_mismatch token_replay : TokenError

pub data Verdict : Type 0 where
  accepted : DelegatedTaskToken → Verdict
  rejected : TokenError → Verdict

-- `"." in token_str`
unfoldable pub has_dot : String → Bool
has_dot String.[] = false
has_dot (String.◌∷◌ c s) = nat_eq (code c) 46 || has_dot s

-- The checks that both ways share: the expiry, the task and the subject.
unfoldable pub check_binding :
    ℕ → (exp : ℕ) (token_task token_sub task_id agent_id : String) → Option TokenError
check_binding now exp token_task token_sub task_id agent_id =
    if ltb exp now
    then some token_expired
    else if not (token_task == task_id)
    then some task_mismatch
    else if not (token_sub == "") && not (token_sub == agent_id)
    then some subject_mismatch
    else none

-- Mark the token where it is consumed, and answer.
abbrev pub consume_as :
    ℕ → Bool → String → DelegatedTaskToken → List TokenRow → Verdict × List TokenRow
consume_as now true j t rows = (accepted t, mark_used now j rows)
consume_as now false j t rows = (accepted t, rows)

-- The minimal token that the look-up by jti returns; the other fields have their defaults.
abbrev pub minimal_token : String → String → String → String → DelegatedTaskToken
minimal_token issuer j agent_id task_id = record {
  jti = j;
  iss = issuer;
  sub = agent_id;
  iat = 0;
  exp = 0;
  origin_agent = "";
  origin_tenant = "";
  delegation_chain = [];
  effective_scope = "";
  attenuated_from = "";
  max_depth = 10;
  depth = 0;
  allowed_callees = none;
  task_id = task_id;
}

-- The look-up by jti, once the row is read.
unfoldable pub verify_row :
    String
    → ℕ
    → TokenRow
    → (token_str task_id agent_id : String) → Bool
    → List TokenRow
    → Verdict × List TokenRow
verify_row issuer now r token_str task_id agent_id consume rows =
    elim (check_binding now (r.expires_at * ticks) r.task_id r.sub task_id agent_id) [
      | some e ↦ (rejected e, rows)
      | none ↦
          if is_some r.used_at
          then (rejected token_replay, rows)
          else consume_as now consume r.jti (minimal_token issuer token_str agent_id task_id) rows
    ]

unfoldable pub verify_jti :
    String
    → ℕ
    → (token_str task_id agent_id : String) → Bool
    → List TokenRow
    → Verdict × List TokenRow
verify_jti issuer now token_str task_id agent_id consume rows = elim (find_jti token_str rows) [
  | none ↦ (rejected token_invalid, rows)
  | some r ↦ verify_row issuer now r token_str task_id agent_id consume rows
]

-- `SELECT used_at FROM delegation_tokens WHERE jti=? AND used_at IS NOT NULL`
unfoldable pub was_used : String → List TokenRow → Bool
was_used j [] = false
was_used j (r ∷ rows) = (r.jti == j && is_some r.used_at) || was_used j rows

unfoldable pub verify_signed :
    ℕ
    → DelegatedTaskToken
    → (task_id agent_id : String) → Bool
    → List TokenRow
    → Verdict × List TokenRow
verify_signed now t task_id agent_id consume rows =
    elim (check_binding now t.exp t.task_id t.sub task_id agent_id) [
      | some e ↦ (rejected e, rows)
      | none ↦
          if was_used t.jti rows
          then (rejected token_replay, rows)
          else consume_as now consume t.jti t rows
    ]

module _ (peek_exp : String → Option ℕ) (signed : String → Option DelegatedTaskToken) where
  -- from_jwt: an expiry of 0 is not looked at.
  unfoldable pub from_jwt : ℕ → String → DelegatedTaskToken ⊎ TokenError
  from_jwt now token_str =
      if elim (peek_exp token_str) [ none ↦ false | some e ↦ not (nat_eq e 0) && ltb e now ]
      then inr token_expired
      else elim (signed token_str) [ none ↦ inr token_invalid | some t ↦ inl t ]

  unfoldable pub verify_jwt :
      ℕ → (token_str task_id agent_id : String) → Bool → List TokenRow → Verdict × List TokenRow
  verify_jwt now token_str task_id agent_id consume rows = elim (from_jwt now token_str) [
    | inr e ↦ (rejected e, rows)
    | inl t ↦ verify_signed now t task_id agent_id consume rows
  ]

  unfoldable pub verify_delegation_token :
      String
      → ℕ
      → (token_str task_id agent_id : String) → Bool
      → List TokenRow
      → Verdict × List TokenRow
  verify_delegation_token issuer now token_str task_id agent_id consume rows =
      if has_dot token_str
      then verify_jwt now token_str task_id agent_id consume rows
      else verify_jti issuer now token_str task_id agent_id consume rows
