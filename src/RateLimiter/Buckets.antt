-- ===== src/RateLimiter/Buckets.antt =====
-- The buckets of rate_limiter.py, one by one: what `consume` does to the bucket it is for and to the
-- others.
use simple_a2a_registry.RateLimiter.{Bucket, get_bucket, set_bucket, refilled, consume, one_token}
use simple_a2a_registry.Prelude.{
  ℕ, arith, ◌+◌, ◌-◌, ◌*◌, String, true, false, inl, inr, ◌≡◌, ◌⊎◌, refl, some, List, [], ◌∷◌, leb,
  ◌==◌, Bool-cases, Text-cases, text_eq_self,
}

pub get_bucket-set_bucket :
    (key : String) (b : Bucket) (buckets : List (String × Bucket))
    → get_bucket key (set_bucket key b buckets) ≡ some b
unfolding get_bucket set_bucket
get_bucket-set_bucket key b [] = rw (text_eq_self key) refl
get_bucket-set_bucket key b ((k, c) ∷ buckets) = elim (Bool-cases (k == key)) [
  | inl e ↦ rw (e, e) refl
  | inr n ↦ rw (n, n) (get_bucket-set_bucket key b buckets)
]

pub get_bucket-set_bucket_other :
    (key other : String) (b : Bucket) (buckets : List (String × Bucket))
    → (other == key) ≡ false
    → get_bucket key (set_bucket other b buckets) ≡ get_bucket key buckets
unfolding get_bucket set_bucket
get_bucket-set_bucket_other key other b [] n = rw n refl
get_bucket-set_bucket_other key other b ((k, c) ∷ buckets) n = elim (Text-cases k other) [
  | inl (same, e) ↦ rw (e, same, n) refl
  | inr (_, e) ↦ elim (Bool-cases (k == key)) [
    | inl s ↦ rw (e, s) refl
    | inr d ↦ rw (e, d) (get_bucket-set_bucket_other key other b buckets n)
  ]
]

spend :
    (current : ℕ)
    → leb (1 * one_token) current ≡ true
    → current - 1 * one_token + one_token ≡ current
spend current e = ground arith

-- The bucket that a request of one token leaves, and whether it is let through.
pub consume_left :
    (key : String) (rate burst now : ℕ) (buckets : List (String × Bucket))
    → (b : Bucket) × (get_bucket key (consume key 1 rate burst now buckets).1 ≡ some b)
      × (b.last_refill ≡ now)
      × ((((consume key 1 rate burst now buckets).0.is_allowed ≡ true)
            × (b.current + one_token ≡ refilled (get_bucket key buckets) now rate burst))
          ⊎ (((consume key 1 rate burst now buckets).0.is_allowed ≡ false)
              × (b.current ≡ refilled (get_bucket key buckets) now rate burst)))
unfolding consume
consume_left key rate burst now buckets =
    elim (Bool-cases (leb (1 * one_token) (refilled (get_bucket key buckets) now rate burst))) [
      | inl e ↦ rw e (_, get_bucket-set_bucket key _ buckets, refl, inl (refl, spend _ e))
      | inr n ↦ rw n (_, get_bucket-set_bucket key _ buckets, refl, inr (refl, refl))
    ]

-- A request of one client leaves every other client's bucket alone.
pub consume_other :
    (key other : String) (tokens rate burst now : ℕ) (buckets : List (String × Bucket))
    → (other == key) ≡ false
    → get_bucket key (consume other tokens rate burst now buckets).1 ≡ get_bucket key buckets
unfolding consume
consume_other key other tokens rate burst now buckets n =
    get_bucket-set_bucket_other key other _ buckets n
