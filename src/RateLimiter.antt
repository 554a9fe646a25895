-- ===== src/RateLimiter.antt =====
-- The request limiter of rate_limiter.py: MemoryTokenBucket, and the middleware that
-- rate_limit_middleware_factory builds over it when it is enabled.
-- Time is counted in ticks, `ticks` of them in a second, and tokens in the fractions that one tick
-- refills at a rate of one per minute, so that every number of the source is a whole one here and its
-- rounding of floats is left out. The clock is the server's: it does not go back.
pub mod Buckets
pub mod Bound
pub mod Retry
use simple_a2a_registry.Prelude.{
  ℕ, zero, suc, ◌+◌, ◌-◌, ◌*◌, ◌/◌, min, max, String, Bool, true, false, not, ◌&&◌, ◌||◌, Option,
  none, some, List, [], ◌∷◌, leb, ltb, nat_eq, ◌==◌, if◌then◌else◌, contains, or_else, strip,
}
use Prim.Native.Char.{Char, code}
use Prim.Native.String
use Prim.Native.String.{◌++◌ as text_append}

-- A microsecond.
abbrev pub ticks : ℕ
ticks = 1000000

-- One token.
abbrev pub one_token : ℕ
one_token = 60 * ticks

-- What `_buckets`, `_last_refill` and `_rates` hold for a key; the three are always written together.
pub record Bucket : Type 0 where
  pub current : ℕ
  pub last_refill : ℕ
  pub rate : ℕ
  pub burst : ℕ

unfoldable pub get_bucket : String → List (String × Bucket) → Option Bucket
get_bucket key [] = none
get_bucket key ((k, b) ∷ buckets) = if k == key then some b else get_bucket key buckets

unfoldable pub set_bucket : String → Bucket → List (String × Bucket) → List (String × Bucket)
set_bucket key b [] = (key, b) ∷ []
set_bucket key b ((k, c) ∷ buckets) =
    let rest = set_bucket key b buckets in if k == key then (k, b) ∷ buckets else (k, c) ∷ rest

-- The tokens before the request is served: a full bucket at first, else what was left and the refill
-- since, up to the burst.
unfoldable pub refilled : Option Bucket → (now rate burst : ℕ) → ℕ
refilled none now rate burst = burst * one_token
refilled (some b) now rate burst =
    min (b.current + (now - b.last_refill) * rate) (burst * one_token)

-- What `consume` returns.
pub record Answer : Type 0 where
  pub is_allowed : Bool
  pub remaining : ℕ
  pub reset_at : ℕ

unfoldable pub reset_time : (now rate burst current : ℕ) → ℕ
reset_time now zero burst current = now + 60 * ticks
reset_time now (suc r) burst current = now + (burst * one_token - current) / suc r

unfoldable pub consume :
    (key : String) (tokens rate burst now : ℕ)
    → List (String × Bucket)
    → Answer × List (String × Bucket)
consume key tokens rate burst now buckets =
    let current = refilled (get_bucket key buckets) now rate burst in
    let is_allowed = leb (tokens * one_token) current in
    let left = (if is_allowed then current - tokens * one_token else current) in
    (
      record {
        is_allowed = is_allowed;
        remaining = left / one_token;
        reset_at = reset_time now rate burst left;
      },
      set_bucket key (record { current = left; last_refill = now; rate = rate; burst = burst })
          buckets,
    )

-- What the middleware reads of a request, `agent_id` being "" where it is not set, and a header being ""
-- where it is missing.
pub record Request : Type 0 where
  pub method : String
  pub path : String
  pub agent_id : String
  pub forwarded_for : String
  pub real_ip : String
  pub remote : Option String

-- `s.split(',')[0]`
abbrev pub first_part : String → String
first_part String.[] = String.[]
first_part (String.◌∷◌ c s) = if nat_eq (code c) 44 then String.[] else String.◌∷◌ c (first_part s)

-- `s.startswith(prefix)`
abbrev pub starts_with : String → String → Bool
starts_with s String.[] = true
starts_with String.[] (String.◌∷◌ c p) = false
starts_with (String.◌∷◌ d s) (String.◌∷◌ c p) = nat_eq (code d) (code c) && starts_with s p

-- `s[n:]`
abbrev pub drop_text : ℕ → String → String
drop_text zero s = s
drop_text (suc n) String.[] = String.[]
drop_text (suc n) (String.◌∷◌ c s) = drop_text n s

abbrev pub is_authenticated : Request → Bool
is_authenticated r = not (r.agent_id == "") && not (r.agent_id == "anonymous")

unfoldable pub get_client_key : Request → String
get_client_key r =
    if is_authenticated r
    then text_append "client:" r.agent_id
    else if not (r.forwarded_for == "")
    then text_append "ip:" (strip (first_part r.forwarded_for))
    else if not (r.real_ip == "")
    then text_append "ip:" (strip r.real_ip)
    else text_append "ip:"
        (let peer = or_else r.remote "" in if peer == "" then "unknown" else peer)

unfoldable pub is_whitelisted : Request → List String → Bool
is_whitelisted r whitelist =
    if not (r.agent_id == "") && contains whitelist r.agent_id
    then true
    else if starts_with (get_client_key r) "client:"
    then contains whitelist (drop_text 7 (get_client_key r))
    else false

unfoldable pub public_path : String → Bool
public_path path =
    starts_with path "/auth/"
    || starts_with path "/.well-known/"
    || path == "/health"
    || path == "/"
    || path == "/metrics"

-- The arguments of the factory that the middleware uses.
pub record Limits : Type 0 where
  pub default_unauthenticated : ℕ
  pub default_authenticated : ℕ
  pub whitelist : List String

unfoldable pub request_rate : Limits → Request → ℕ
request_rate limits r =
    if is_authenticated r && not (public_path r.path)
    then limits.default_authenticated
    else limits.default_unauthenticated

-- What becomes of a request: it goes to the handler uncounted, or with the headers that the response
-- gets, or it is answered with 429.
pub data Reply : Type 0 where
  exempt : Reply
  served : (limit remaining reset : ℕ) → Reply
  too_many_requests : (limit remaining reset retry_after : ℕ) → Reply

-- `later` is the time that the clock shows when the refusal is written.
unfoldable pub answer_request : (limit later : ℕ) → Answer → Reply
answer_request limit later a =
    if a.is_allowed
    then served limit a.remaining (a.reset_at / ticks)
    else too_many_requests limit a.remaining (a.reset_at / ticks)
        (max 1 ((a.reset_at - later) / ticks))

unfoldable pub rate_limit_middleware :
    Limits → (now later : ℕ) → Request → List (String × Bucket) → Reply × List (String × Bucket)
rate_limit_middleware limits now later r buckets =
    if r.method == "OPTIONS"
    then (exempt, buckets)
    else if is_whitelisted r limits.whitelist
    then (exempt, buckets)
    else (let rate = request_rate limits r in
        let (a, after) = consume (get_client_key r) 1 rate rate now buckets in
        (answer_request rate later a, after))
