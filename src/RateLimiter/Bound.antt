-- ===== src/RateLimiter/Bound.antt =====
-- The promise of rate_limiter.py over a whole sequence of requests: a client gets its burst and the
-- refill of the time that passes, and no more.
use simple_a2a_registry.RateLimiter.{
  is_authenticated, public_path, Bucket, get_bucket, refilled, consume, one_token, answer_request,
  Request, get_client_key, is_whitelisted, Limits, request_rate, Reply, exempt, served,
  too_many_requests, rate_limit_middleware,
}
use simple_a2a_registry.RateLimiter.Buckets.{consume_left, consume_other}
use native.Mathlib.Nat.{
  mul-le-mul_left, mul-le-mul_right, add-mul, mul-add, mul_comm, le-max_left, le-max_right,
}
use simple_a2a_registry.Prelude.{
  ℕ, arith, ◌&&◌, ◌+◌, ◌-◌, ◌*◌, ◌≤◌, max, String, false, not, inl, inr, ◌≡◌, refl, ap, ◌∙◌, Option,
  none, some, List, [], ◌∷◌, ◌==◌, if◌then◌else◌, Bool-cases, Text-cases, text_eq_self,
}

-- A request, the time at which it is counted, and the time at which its refusal would be written.
pub record Arrival : Type 0 where
  pub request : Request
  pub now : ℕ
  pub later : ℕ

-- The times of a sequence do not go back, from `t` on.
abbrev pub InOrder : ℕ → List Arrival → Type 0
InOrder t [] = Unit
InOrder t (a ∷ rest) = (t ≤ a.now) × InOrder a.now rest

-- The time of the last request, or `t`.
abbrev pub end_time : ℕ → List Arrival → ℕ
end_time t [] = t
end_time t (a ∷ rest) = end_time a.now rest

-- One request of the client `key` that was counted and served.
abbrev pub served_one : String → Request → Reply → ℕ
served_one key r exempt = 0
served_one key r (served l m s) = if get_client_key r == key then 1 else 0
served_one key r (too_many_requests l m s w) = 0

-- How many requests of the client `key` are counted and served in a sequence.
unfoldable pub served_count : Limits → String → List Arrival → List (String × Bucket) → ℕ
served_count limits key [] buckets = 0
served_count limits key (a ∷ rest) buckets =
    let (outcome, after) = rate_limit_middleware limits a.now a.later a.request buckets in
    served_one key a.request outcome + served_count limits key rest after

-- What a client may still spend at time `t`, where rates are at most `top`.
abbrev pub budget_of : (top t : ℕ) → Option Bucket → ℕ
budget_of top t none = top * one_token
budget_of top t (some b) = b.current + (t - b.last_refill) * top

-- No bucket was refilled after `t`.
abbrev pub IsPast : ℕ → Option Bucket → Type 0
IsPast t none = Unit
IsPast t (some b) = b.last_refill ≤ t

elapsed_split : (last t now : ℕ) → last ≤ t → t ≤ now → now - last ≡ (t - last) + (now - t)
elapsed_split last t now h k = omega arith

mul_split :
    (top last t now : ℕ)
    → last ≤ t
    → t ≤ now
    → (now - last) * top ≡ (t - last) * top + (now - t) * top
mul_split top last t now h k =
    ap (λ (x : ℕ). x * top) (elapsed_split last t now h k) ∙ add-mul (t - last) (now - t) top

budget_of_passes :
    (top t now : ℕ) (o : Option Bucket)
    → IsPast t o
    → t ≤ now
    → budget_of top now o ≤ budget_of top t o + (now - t) * top
budget_of_passes top t now none p h = omega arith
budget_of_passes top t now (some b) p h = omega (arith, mul_split top b.last_refill t now p h)

refilled_within :
    (top now rate : ℕ) (o : Option Bucket)
    → rate ≤ top
    → refilled o now rate rate ≤ budget_of top now o
unfolding refilled
refilled_within top now rate none h = mul-le-mul_right one_token h
refilled_within top now rate (some b) h = omega (arith, mul-le-mul_left (now - b.last_refill) h)

elapsed_none : (t last : ℕ) → last ≡ t → t - last ≡ 0
elapsed_none t last e = omega arith

budget_of_now : (top t : ℕ) (b : Bucket) → b.last_refill ≡ t → budget_of top t (some b) ≡ b.current
budget_of_now top t b e = rw (elapsed_none t b.last_refill e) (omega arith)

-- A counted request of the client takes from the budget what it is served.
consume_pays :
    (limits : Limits) (top : ℕ) (a : Arrival) (rate : ℕ) (buckets : List (String × Bucket))
    → rate ≤ top
    → served_one (get_client_key a.request) a.request (
            answer_request rate a.later
              (consume (get_client_key a.request) 1 rate rate a.now buckets).0)
          * one_token
        + budget_of top a.now (
            get_bucket
              (get_client_key a.request)
              (consume (get_client_key a.request) 1 rate rate a.now buckets).1)
      ≤ budget_of top a.now (get_bucket (get_client_key a.request) buckets)
unfolding answer_request
consume_pays limits top a rate buckets h =
    let key = get_client_key a.request in
    let (b, found, last, spent) = consume_left key rate rate a.now buckets in
    let within = refilled_within top a.now rate (get_bucket key buckets) h in
    elim spent [
      | inl (allowed, left) ↦
          rw (found, allowed, text_eq_self key)
            (omega (arith, budget_of_now top a.now b last, within))
      | inr (denied, left) ↦
          rw (found, denied) (omega (arith, budget_of_now top a.now b last, within))
    ]

served_one_other :
    (key : String) (r : Request) (o : Reply)
    → (get_client_key r == key) ≡ false
    → served_one key r o ≡ 0
served_one_other key r exempt h = refl
served_one_other key r (served l m s) h = rw h refl
served_one_other key r (too_many_requests l m s w) h = refl

-- What one request, counted or not, of whatever client, does to the budget of the client `key`.
rate_limit_middleware_pays :
    (limits : Limits) (top : ℕ) (key : String) (a : Arrival) (buckets : List (String × Bucket))
    → request_rate limits a.request ≤ top
    → served_one key a.request (rate_limit_middleware limits a.now a.later a.request buckets).0
          * one_token
        + budget_of top a.now
            (get_bucket key (rate_limit_middleware limits a.now a.later a.request buckets).1)
      ≤ budget_of top a.now (get_bucket key buckets)
unfolding rate_limit_middleware
rate_limit_middleware_pays limits top key a buckets h =
    elim (Bool-cases (a.request.method == "OPTIONS")) [
      | inl e ↦ rw e (omega arith)
      | inr n ↦ elim (Bool-cases (is_whitelisted a.request limits.whitelist)) [
        | inl e ↦ rw (n, e) (omega arith)
        | inr m ↦ elim (Text-cases (get_client_key a.request) key) [
          | inl (same, _) ↦
              rw (n, m, ← same)
                (consume_pays limits top a (request_rate limits a.request) buckets h)
          | inr (_, other) ↦
              rw
                (
                  n,
                  m,
                  served_one_other key a.request _ other,
                  consume_other key (get_client_key a.request) 1 _ _ a.now buckets other,
                )
                (omega arith)
        ]
      ]
    ]

-- The middleware leaves a client's bucket as it is or refilled at the time of the request.
rate_limit_middleware-IsPast :
    (limits : Limits) (key : String) (a : Arrival) (buckets : List (String × Bucket))
    → IsPast a.now (get_bucket key buckets)
    → IsPast a.now (get_bucket key (rate_limit_middleware limits a.now a.later a.request buckets).1)
unfolding rate_limit_middleware
rate_limit_middleware-IsPast limits key a buckets p =
    elim (Bool-cases (a.request.method == "OPTIONS")) [
      | inl e ↦ rw e p
      | inr n ↦ elim (Bool-cases (is_whitelisted a.request limits.whitelist)) [
        | inl e ↦ rw (n, e) p
        | inr m ↦ elim (Text-cases (get_client_key a.request) key) [
          | inl (same, _) ↦
              let (b, found, last, _) =
                consume_left (get_client_key a.request) (request_rate limits a.request)
                  (request_rate limits a.request) a.now buckets in
              rw (n, m, ← same, found) (omega arith)
          | inr (_, other) ↦
              rw (n, m, consume_other key (get_client_key a.request) 1 _ _ a.now buckets other) p
        ]
      ]
    ]

IsPast-later : (t now : ℕ) (o : Option Bucket) → t ≤ now → IsPast t o → IsPast now o
IsPast-later t now none h p = tt
IsPast-later t now (some b) h p = omega arith

request_rate_within :
    (limits : Limits) (r : Request) (top : ℕ)
    → limits.default_authenticated ≤ top
    → limits.default_unauthenticated ≤ top
    → request_rate limits r ≤ top
unfolding request_rate
request_rate_within limits r top h k =
    elim (Bool-cases (is_authenticated r && not (public_path r.path))) [
      | inl e ↦ rw e h
      | inr n ↦ rw n k
    ]

end_time_from : (t : ℕ) (arrivals : List Arrival) → InOrder t arrivals → t ≤ end_time t arrivals
end_time_from t [] o = omega arith
end_time_from t (a ∷ rest) (le, o) = omega (arith, end_time_from a.now rest o)

served_count_budget :
    (limits : Limits) (top : ℕ) (key : String) (t : ℕ) (arrivals : List Arrival)
    (buckets : List (String × Bucket))
    → limits.default_authenticated ≤ top
    → limits.default_unauthenticated ≤ top
    → InOrder t arrivals
    → IsPast t (get_bucket key buckets)
    → served_count limits key arrivals buckets * one_token
      ≤ budget_of top t (get_bucket key buckets) + (end_time t arrivals - t) * top
unfolding served_count
served_count_budget limits top key t [] buckets h k o p = omega arith
served_count_budget limits top key t (a ∷ rest) buckets h k (le, o) p =
    let after = (rate_limit_middleware limits a.now a.later a.request buckets).1 in
    let past =
      rate_limit_middleware-IsPast limits key a buckets
        (IsPast-later t a.now (get_bucket key buckets) le p) in
    omega (
      arith,
      served_count_budget limits top key a.now rest after h k o past,
      rate_limit_middleware_pays limits top key a buckets
          (request_rate_within limits a.request top h k),
      budget_of_passes top t a.now (get_bucket key buckets) p le,
      mul_split top t a.now (end_time a.now rest) le (end_time_from a.now rest o),
    )

-- From an empty table on, over any sequence of requests whose times do not go back, a client is served no
-- more of its counted requests than its burst and the refill of the elapsed time, at the higher of the
-- two rates, allow; the other clients' requests in between make no difference.
pub served_count_bound :
    (limits : Limits) (key : String) (t : ℕ) (arrivals : List Arrival)
    → InOrder t arrivals
    → served_count limits key arrivals [] * one_token
      ≤ max limits.default_authenticated limits.default_unauthenticated
        * (one_token + (end_time t arrivals - t))
unfolding get_bucket
served_count_bound limits key t arrivals o =
    let top = max limits.default_authenticated limits.default_unauthenticated in
    omega (
      arith,
      served_count_budget limits top key t arrivals [] (le-max_left _ _) (le-max_right _ _) o tt,
      mul-add top one_token (end_time t arrivals - t),
      mul_comm (end_time t arrivals - t) top,
    )
