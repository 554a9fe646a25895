-- ===== src/Flow/Backoff.antt =====
-- The delay between retries: the loop against the closed form, and against the store's own formula.
use simple_a2a_registry.Prelude.{
  ℕ, zero, suc, ◌-◌, ◌*◌, ◌^◌, min, ◌≤◌, ◌<◌, ◌≡◌, ◌⊎◌, refl, sym, arith, ap, ◌∙◌, none, some, inl,
  inr, leb, Bool-cases,
}
use native.Mathlib.Nat.{mul_assoc, mul_comm, pow-suc}
use simple_a2a_registry.Flow.{FlowControlConfig, default_config, double_delay, get_retry_backoff}
use simple_a2a_registry.Store.Status.Writes.{backoff_delay}

double_delay_closed : (n d : ℕ) → double_delay n d ≡ d * 2 ^ n
unfolding double_delay
double_delay_closed zero d = omega arith
double_delay_closed (suc n) d = double_delay_closed n (d * 2) ∙ double_power d n
  where
    double_power : (d n : ℕ) → (d * 2) * 2 ^ n ≡ d * 2 ^ suc n
    double_power d n =
        mul_assoc d 2 (2 ^ n) ∙ ap (λ x. d * x) (mul_comm 2 (2 ^ n) ∙ sym (pow-suc 2 n))

-- The delay that the loop computes is the base doubled once for each failure after the first,
-- and no more than the maximum.
pub get_retry_backoff_closed :
    (cfg : FlowControlConfig) (n : ℕ)
    → get_retry_backoff cfg n ≡ min (cfg.retry_backoff_base * 2 ^ (n - 1)) cfg.retry_backoff_max
unfolding get_retry_backoff
get_retry_backoff_closed cfg n = rw (double_delay_closed (n - 1) cfg.retry_backoff_base) refl

default_backoff_suc : (n : ℕ) → get_retry_backoff default_config (suc n) ≡ min (30 * 2 ^ n) 3600
default_backoff_suc n =
    get_retry_backoff_closed default_config (suc n)
    ∙ ap (λ k. min (30 * 2 ^ k) 3600) (suc_minus_one n)
  where
    suc_minus_one : (n : ℕ) → suc n - 1 ≡ n
    suc_minus_one n = omega arith

-- After n earlier failures, where n is below 1024, the store computes the delay that the flow
-- controller with its default configuration gives for the next failure. From 1024 on the store
-- computes none: the call raises.
pub get_retry_backoff-backoff_delay :
    (n : ℕ)
    → ((n < 1024) × (backoff_delay n ≡ some (get_retry_backoff default_config (suc n))))
      ⊎ ((1024 ≤ n) × (backoff_delay n ≡ none))
unfolding backoff_delay
get_retry_backoff-backoff_delay n = elim (Bool-cases (leb 1024 n)) [
  | inl e ↦ inr (ground arith, rw e refl)
  | inr e ↦ inl (ground arith, rw (e, default_backoff_suc n) refl)
]
