-- ===== src/Tests/Tokens.antt =====
-- The delegated tokens.
use simple_a2a_registry.Prelude.{
  ℕ, String, Option, ◌==◌, if◌then◌else◌, true, false, none, some, List, [], ◌∷◌, ◌≡◌, inr, refl,
  arith, split_words, join_words, sorted, distinct, is_space, contains,
}
use simple_a2a_registry.Delegation.{
  verify_delegation_token, has_dot, ManagerConfig, MintRequest, Restriction, DelegatedTaskToken,
  TokenRow, mint_delegation_token, attenuate_scope, attenuate_by, attenuated_set, mapped, find_jti,
  verify_row, check_binding, verify_jti, verify_signed, accepted, minimal_token, row_of,
  persist_token_hash, mark_used,
}
use simple_a2a_registry.Delegation.Once.{consumed_once, Refuses}
use simple_a2a_registry.Delegation.Accepts.{mint-verify_delegation_token, verify_signed_untracked}

abbrev manager : ManagerConfig
manager = record { issuer = "registry"; default_ttl = 300; max_depth = 10 }

-- `{"map": {"admin": "read", "write": "root"}}`
abbrev downgrade : Restriction
downgrade = record {
  exclude = none;
  reduce_to = none;
  mapping = some (("admin", "read") ∷ ("write", "root") ∷ []);
  has_others = false;
}

abbrev request : MintRequest
request = record {
  jti = "j1";
  sub = "coder";
  task_id = "t1";
  origin_agent = "lead";
  origin_tenant = "";
  effective_scope = "admin read write";
  parent_chain = [];
  parent_scope = "";
  restriction = some downgrade;
  depth = 1;
  max_depth = none;
  ttl = none;
  allowed_callees = none;
}

abbrev token : DelegatedTaskToken
token = record {
  jti = "j1";
  iss = "registry";
  sub = "coder";
  iat = 1000000007;
  exp = 1300000007;
  origin_agent = "lead";
  origin_tenant = "";
  delegation_chain =
      record {
        agent = "coder";
        action = "delegate";
        scope = "admin read write";
        timestamp = 1000000007;
      }
      ∷ [];
  effective_scope = "read write";
  attenuated_from = "admin read write";
  max_depth = 10;
  depth = 1;
  allowed_callees = none;
  task_id = "t1";
}

token_is_minted : mint_delegation_token manager 1000000007 request ≡ some token
unfolding mint_delegation_token attenuate_scope attenuate_by join_words sorted attenuated_set
    distinct split_words is_space contains mapped
token_is_minted = refl

abbrev table : List TokenRow
table = row_of 1000000007 token ∷ []

abbrev after : List TokenRow
after = record (row_of 1000000007 token) { used_at = some 1100000000 } ∷ []

-- The one signed text that the tests know.
abbrev signed : String → Option DelegatedTaskToken
signed s = if s == "h.p.s" then some token else none

abbrev peek_exp : String → Option ℕ
peek_exp s = some 1300000007

consumed_once_example :
    Refuses
      (verify_delegation_token peek_exp signed "registry" 1100000001 "h.p.s" "t1" "coder" true
        after)
      after
unfolding verify_delegation_token has_dot verify_jti find_jti verify_row check_binding mark_used
consumed_once_example =
    consumed_once peek_exp signed "registry" 1100000000 1100000001 "j1" "t1" "coder" "h.p.s" "t1"
      "coder" true (minimal_token "registry" "j1" "coder" "t1") table after refl refl
      (inr (refl, token, refl, refl))

-- The last moment at which the token is accepted, 7 microseconds before its expiry.
mint-verify_delegation_token_example :
    (stored : List TokenRow) × (persist_token_hash 1000000007 ("t1" ∷ []) token [] ≡ some stored)
    × (verify_delegation_token peek_exp signed "registry" 1300000000 "j1" "t1" "coder" true stored
        ≡ (
          accepted (minimal_token "registry" "j1" "coder" "t1"),
          record {
            jti = "j1";
            task_id = "t1";
            sub = "coder";
            origin_agent = "lead";
            scope = "read write";
            depth = 1;
            expires_at = 1300;
            used_at = some 1300000000;
            created_at = 1000000007;
          }
              ∷ [],
        ))
unfolding find_jti has_dot contains
mint-verify_delegation_token_example =
    mint-verify_delegation_token peek_exp signed manager 1000000007 1300000000 1300 request token
      "coder" true ("t1" ∷ []) [] token_is_minted refl refl refl (omega arith) (omega arith) refl

verify_signed_untracked_example :
    verify_signed 1100000000 token "t1" "coder" true [] ≡ (accepted token, [])
unfolding find_jti
verify_signed_untracked_example =
    verify_signed_untracked 1100000000 token "coder" true [] refl (omega arith) refl
