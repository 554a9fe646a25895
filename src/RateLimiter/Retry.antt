-- ===== src/RateLimiter/Retry.antt =====
-- The Retry-After header of rate_limiter.py: a refused client that waits as long as it says is served.
use simple_a2a_registry.RateLimiter.{
  ticks, Bucket, get_bucket, refilled, consume, reset_time, one_token, Answer, answer_request,
  Request, get_client_key, is_whitelisted, Limits, request_rate, Reply, exempt, served,
  too_many_requests, rate_limit_middleware,
}
use simple_a2a_registry.RateLimiter.Buckets.{get_bucket-set_bucket}
use native.Mathlib.Nat.{mul-add, mul_comm, lt-mul-div-succ, mul-le-mul_left}
use simple_a2a_registry.Prelude.{
  ℕ, zero, suc, arith, ◌+◌, ◌-◌, ◌*◌, ◌/◌, ◌≤◌, ◌<◌, max, String, Bool, true, false, inl, inr, ◌≡◌,
  refl, sym, ap, ◌∙◌, some, List, ◌==◌, Bool-cases,
}

abbrev pub is_served : Reply → Bool
is_served exempt = false
is_served (served l m s) = true
is_served (too_many_requests l m s w) = false

-- The header's rounding costs less than a second.
waits_nearly :
    (now later again q : ℕ)
    → now ≤ later
    → later + max 1 ((now + q - later) / ticks) * ticks ≤ again
    → q + 1 ≤ again - now + ticks
waits_nearly now later again q order wait = omega arith

-- With a rate of at least two, the time that the header names refills more than one token.
waits_enough :
    (current rate now later again : ℕ)
    → 2 ≤ rate
    → now ≤ later
    → current < one_token
    → later + max 1 ((now + (rate * one_token - current) / rate - later) / ticks) * ticks ≤ again
    → one_token ≤ current + (again - now) * rate
waits_enough current rate now later again big order low wait =
    let q = (rate * one_token - current) / rate in
    omega (
      arith,
      lt-mul-div-succ (rate * one_token - current) {b = rate} (omega arith),
      mul-le-mul_left rate (waits_nearly now later again q order wait),
      mul-add rate (again - now) ticks,
      mul_comm (again - now) rate,
    )

-- A bucket with a token in it, after the refill, serves the next request.
consume_allows :
    (key : String) (rate now : ℕ) (b : Bucket) (buckets : List (String × Bucket))
    → get_bucket key buckets ≡ some b
    → 1 ≤ rate
    → one_token ≤ b.current + (now - b.last_refill) * rate
    → (consume key 1 rate rate now buckets).0.is_allowed ≡ true
unfolding consume refilled
consume_allows key rate now b buckets found big enough = rw (consume, found) (ground arith)

-- What a refusal says of the bucket that it leaves.
consume_denies :
    (key : String) (rate now : ℕ) (buckets : List (String × Bucket))
    → (consume key 1 rate rate now buckets).0.is_allowed ≡ false
    → (b : Bucket) × (get_bucket key (consume key 1 rate rate now buckets).1 ≡ some b)
      × (b.last_refill ≡ now)
      × (b.current < one_token)
      × ((consume key 1 rate rate now buckets).0.reset_at ≡ reset_time now rate rate b.current)
unfolding consume
consume_denies key rate now buckets denied =
    rw denied (_, get_bucket-set_bucket key _ buckets, refl, ground (arith, denied), refl)

reset_time_positive :
    (now rate burst current : ℕ)
    → 1 ≤ rate
    → reset_time now rate burst current ≡ now + (burst * one_token - current) / rate
unfolding reset_time
reset_time_positive now zero burst current h = absurd (omega arith)
reset_time_positive now (suc r) burst current h = refl

rate_limit_middleware_counts :
    (limits : Limits) (now later : ℕ) (r : Request) (buckets : List (String × Bucket))
    → (r.method == "OPTIONS") ≡ false
    → is_whitelisted r limits.whitelist ≡ false
    → let rate = request_rate limits r in
      let step = consume (get_client_key r) 1 rate rate now buckets in
      rate_limit_middleware limits now later r buckets ≡ (answer_request rate later step.0, step.1)
unfolding rate_limit_middleware
rate_limit_middleware_counts limits now later r buckets m w = rw (m, w) refl

answer_request_served :
    (rate later : ℕ) (a : Answer)
    → a.is_allowed ≡ true
    → is_served (answer_request rate later a) ≡ true
unfolding answer_request
answer_request_served rate later a h = rw h refl

answer_request_refused :
    (rate later : ℕ) (a : Answer) (limit remaining reset retry_after : ℕ)
    → answer_request rate later a ≡ too_many_requests limit remaining reset retry_after
    → (a.is_allowed ≡ false) × (retry_after ≡ max 1 ((a.reset_at - later) / ticks))
unfolding answer_request
answer_request_refused rate later a limit remaining reset retry_after h =
    elim (Bool-cases a.is_allowed) [ inl e ↦ cc (rw e at h) | inr n ↦ (n, cc (rw n at h)) ]

-- Everything that a refusal tells of the request and of the step.
refusal :
    (limits : Limits) (now later : ℕ) (r : Request) (buckets refused : List (String × Bucket))
    → (limit remaining reset retry_after : ℕ)
    → rate_limit_middleware limits now later r buckets
      ≡ (too_many_requests limit remaining reset retry_after, refused)
    → let rate = request_rate limits r in
      let step = consume (get_client_key r) 1 rate rate now buckets in
      ((r.method == "OPTIONS") ≡ false)
      × (is_whitelisted r limits.whitelist ≡ false)
      × (step.0.is_allowed ≡ false)
      × (refused ≡ step.1)
      × (retry_after ≡ max 1 ((step.0.reset_at - later) / ticks))
unfolding rate_limit_middleware
refusal limits now later r buckets refused limit remaining reset retry_after h =
    let outcome = ap (λ (p : Reply × List (String × Bucket)). p.0) h in
    let table = ap (λ (p : Reply × List (String × Bucket)). p.1) h in
    elim (Bool-cases (r.method == "OPTIONS")) [
      | inl e ↦ cc (rw e at outcome)
      | inr m ↦ elim (Bool-cases (is_whitelisted r limits.whitelist)) [
        | inl e ↦ cc (rw (m, e) at outcome)
        | inr w ↦
            let (denied, seconds) =
              answer_request_refused _ later _ limit remaining reset retry_after
                (rw (m, w) at outcome) in
            (m, w, denied, sym (rw (m, w) at table), seconds)
      ]
    ]

-- A client that was refused, and whose rate is two a minute or more, is served when it comes back after
-- the seconds that Retry-After names, the other clients having done whatever to the other buckets.
pub retry_after_suffices :
    (limits : Limits) (now later again after : ℕ) (r : Request)
    (buckets refused between : List (String × Bucket))
    → (limit remaining reset retry_after : ℕ)
    → rate_limit_middleware limits now later r buckets
      ≡ (too_many_requests limit remaining reset retry_after, refused)
    → get_bucket (get_client_key r) between ≡ get_bucket (get_client_key r) refused
    → 2 ≤ request_rate limits r
    → now ≤ later
    → later + retry_after * ticks ≤ again
    → is_served (rate_limit_middleware limits again after r between).0 ≡ true
retry_after_suffices limits now later again after r buckets refused between limit remaining reset
      retry_after h same big order wait =
    let (method, listed, denied, left, seconds) =
      refusal limits now later r buckets refused limit remaining reset retry_after h in
    let key = get_client_key r in
    let rate = request_rate limits r in
    let (b, found, last, low, full) = consume_denies key rate now buckets denied in
    let there = same ∙ ap (λ table. get_bucket key table) left ∙ found in
    let enough = waits_enough b.current rate now later again big order low (
      rw (seconds, full, reset_time_positive now rate rate b.current (omega (arith, big))) at
        wait) in
    rw (rate_limit_middleware_counts limits again after r between method listed) (
      answer_request_served rate after _
        (consume_allows key rate again b between there (omega (arith, big)) (rw last enough)))
