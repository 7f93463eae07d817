-- ===== src/Auth/Bucket.antt =====
-- The token bucket (internal/auth/apikey.go). Times are nanoseconds of the monotonic clock, and
-- tokens are counted in sixty thousand millionths, so that a refill is exact: what the source adds,
-- `elapsed.Seconds() * max / 60` tokens, is `elapsed * max` such units. The rounding of float64 is
-- not modelled.
pub mod Rate
use context.Prelude.{ℕ, ◌+◌, ◌-◌, ◌*◌, ◌/◌, Bool, true, false, if◌then◌else◌, ltb, leb, min}

abbrev pub token : ℕ
token = 60_000_000_000

abbrev pub second : ℕ
second = 1_000_000_000

pub record TokenBucket : Type 0 where
  pub tokens : ℕ
  pub max : ℕ
  pub last_time : ℕ

unfoldable pub new_token_bucket : ℕ → ℕ → TokenBucket
new_token_bucket per_minute now = record {
  tokens = per_minute * token;
  max = per_minute;
  last_time = now;
}

-- the refill of `allow`, up to the cap
unfoldable pub refill : TokenBucket → ℕ → TokenBucket
refill b now =
    let tokens = b.tokens + (now - b.last_time) * b.max in
    record b {
      tokens = if ltb (b.max * token) tokens then b.max * token else tokens;
      last_time = now;
    }

unfoldable pub allow : TokenBucket → ℕ → TokenBucket × Bool
unfolding refill
allow b now =
    let b' = refill b now in
    if ltb b'.tokens token then (b', false) else (record b' { tokens = b'.tokens - token }, true)

-- the division of `retryAfterSeconds`, rounded up; at least one second
unfoldable pub retry_after_seconds : ℕ → ℕ
retry_after_seconds rate_limit =
    if leb rate_limit 0
    then 1
    else let secs = (60 + rate_limit - 1) / rate_limit in if ltb secs 1 then 1 else secs
