-- ===== src/Tests/Limits.antt =====
-- The rate limiter.
use simple_a2a_registry.Prelude.{
  ℕ, strip, ◌+◌, ◌*◌, ◌-◌, ◌≤◌, max, arith, String, true, none, List, [], ◌∷◌, ◌≡◌, refl,
}
use simple_a2a_registry.RateLimiter.{
  Bucket, Limits, Request, rate_limit_middleware, one_token, is_whitelisted, get_client_key,
  request_rate, consume, get_bucket, set_bucket, refilled, reset_time, answer_request,
}
use simple_a2a_registry.RateLimiter.Bound.{Arrival, served_count, served_count_bound, end_time}
use simple_a2a_registry.RateLimiter.Retry.{is_served, retry_after_suffices}

abbrev small : Limits
small = record { default_unauthenticated = 2; default_authenticated = 2; whitelist = "boss" ∷ [] }

abbrev visit : Request
visit = record {
  method = "GET";
  path = "/tasks";
  agent_id = "";
  forwarded_for = "10.0.0.1, 10.0.0.2";
  real_ip = "";
  remote = none;
}

abbrev at_time : ℕ → Arrival
at_time n = record { request = visit; now = n; later = n }

abbrev arrivals : List Arrival
arrivals = at_time 0 ∷ at_time 1000000 ∷ at_time 2000000 ∷ []

served_count_bound_example :
    served_count small "ip:10.0.0.1" arrivals [] * one_token
    ≤ max 2 2 * (one_token + (end_time 0 arrivals - 0))
served_count_bound_example =
    served_count_bound small "ip:10.0.0.1" 0 arrivals
      (omega arith, (omega arith, (omega arith, tt)))

abbrev empty_bucket : List (String × Bucket)
empty_bucket = ("ip:10.0.0.1", record { current = 0; last_refill = 0; rate = 2; burst = 2 }) ∷ []

abbrev refused_bucket : List (String × Bucket)
refused_bucket =
    ("ip:10.0.0.1", record { current = 2000000; last_refill = 1000000; rate = 2; burst = 2 }) ∷ []

retry_after_suffices_example :
    is_served (rate_limit_middleware small 60000000 60000000 visit refused_bucket).0 ≡ true
unfolding rate_limit_middleware is_whitelisted get_client_key strip answer_request consume refilled
    set_bucket get_bucket request_rate reset_time
retry_after_suffices_example =
    retry_after_suffices small 1000000 1000000 60000000 60000000 visit empty_bucket refused_bucket
      refused_bucket 2 0 60 59 refl refl (omega arith) (omega arith) (omega arith)
