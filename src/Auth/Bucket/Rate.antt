-- ===== src/Auth/Bucket/Rate.antt =====
-- What the bucket admits over a run of requests.
use context.Prelude.{
  ℕ, ◌+◌, ◌-◌, ◌*◌, ◌/◌, ◌≤◌, ◌<◌, ◌≡◌, ap, List, [], ◌∷◌, Bool, true, false, arith,
}
use native.Mathlib.Nat.{div-add-mod, mod-lt, mul-le-mul_right}
use context.Auth.Bucket.{TokenBucket, token, second, allow, retry_after_seconds}

-- Never more tokens than the burst.
pub record IsCapped (b : TokenBucket) : Type 0 where
  pub capped : b.tokens ≤ b.max * token

pub allow-IsCapped : (b : TokenBucket) (now : ℕ) → IsCapped (allow b now).0
unfolding allow
allow-IsCapped b now = record { capped = ground arith }

abbrev pub bit : Bool → ℕ
bit true = 1
bit false = 0

-- One request: what it takes and what is left come from what was there and the refill.
allow_budget :
    (b : TokenBucket) (now : ℕ)
    → bit (allow b now).1 * token + (allow b now).0.tokens ≤ b.tokens + (now - b.last_time) * b.max
unfolding allow
allow_budget b now = ground arith

-- A run of requests at the given times, and how many of them are allowed.
pub serve : TokenBucket → List ℕ → ℕ
serve b [] = 0
serve b (t ∷ ts) = bit (allow b t).1 + serve (allow b t).0 ts

-- The times do not go back, and end by `limit`.
abbrev pub IsRun : ℕ → List ℕ → ℕ → Type 0
IsRun start [] limit = start ≤ limit
IsRun start (t ∷ ts) limit = (start ≤ t) × IsRun t ts limit

pub allow-max : (b : TokenBucket) (now : ℕ) → (allow b now).0.max ≡ b.max
unfolding allow
allow-max b now = ground arith

pub allow-last_time : (b : TokenBucket) (now : ℕ) → (allow b now).0.last_time ≡ now
unfolding allow
allow-last_time b now = ground arith

IsRun-le : (start : ℕ) (ts : List ℕ) (limit : ℕ) → IsRun start ts limit → start ≤ limit
IsRun-le start [] limit h = h
IsRun-le start (t ∷ ts) limit h = omega (arith, IsRun-le t ts limit h.1)

split_time : (s t l m : ℕ) → s ≤ t → t ≤ l → (t - s) * m + (l - t) * m ≡ (l - s) * m
split_time s t l m h k =
    let e : (t - s) + (l - t) ≡ l - s = omega arith in omega (arith, ap (λ (x : ℕ). x * m) e)

-- Over any run the requests allowed cost no more than the tokens at its start and the refill of the
-- time that it takes.
pub serve_bound :
    (b : TokenBucket) (ts : List ℕ) (limit : ℕ)
    → IsRun b.last_time ts limit
    → serve b ts * token ≤ b.tokens + (limit - b.last_time) * b.max
unfolding serve
serve_bound b [] limit h = omega arith
serve_bound b (t ∷ ts) limit h =
    let b' = (allow b t).0 in
    let run : IsRun b'.last_time ts limit = rw (allow-last_time b t) h.1 in
    let later : serve b' ts * token ≤ b'.tokens + (limit - t) * b.max =
      rw (allow-last_time b t, allow-max b t) at (serve_bound b' ts limit run) in
    omega (
      arith,
      later,
      allow_budget b t,
      split_time b.last_time t limit b.max h.0 (IsRun-le t ts limit h.1),
    )

-- A refill of a token is enough.
admits :
    (b : TokenBucket) (now : ℕ)
    → 0 < b.max
    → token ≤ (now - b.last_time) * b.max
    → (allow b now).1 ≡ true
unfolding allow
admits b now pos h = ground arith

quotient_covers : (n m : ℕ) → 0 < m → n < n / m * m + m
quotient_covers n m h = omega (arith, div-add-mod n m, mod-lt n h)

-- The seconds of the header refill a token.
retry_covers : (m : ℕ) → 0 < m → 60 ≤ retry_after_seconds m * m
unfolding retry_after_seconds
retry_covers m h = ground (arith, quotient_covers (60 + m - 1) m h)

refill_long : (m secs d : ℕ) → 60 ≤ secs * m → secs * second ≤ d → token ≤ d * m
refill_long m secs d h k = omega (arith, mul-le-mul_right m k)

-- After a refusal, a client that waits for the seconds that it is told is allowed.
pub allow_after_retry :
    (b : TokenBucket) (now later : ℕ)
    → 0 < b.max
    → (allow b now).1 ≡ false
    → now + retry_after_seconds b.max * second ≤ later
    → (allow (allow b now).0 later).1 ≡ true
allow_after_retry b now later pos refused wait = admits (allow b now).0 later (rw allow-max pos) (
    rw (allow-last_time, allow-max)
      (refill_long b.max (retry_after_seconds b.max) (later - now) (retry_covers b.max pos)
        (omega arith)))
