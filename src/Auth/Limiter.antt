-- ===== src/Auth/Limiter.antt =====
-- The authenticator's state (internal/auth/apikey.go): the accepted keys by their hashes, and a
-- bucket for each key identity. Maps are association lists in the order of iteration.
pub mod Bounds
pub mod Verify
use context.Prelude.Int.{ℤ, pos, negsuc}
use context.Prelude.{
  ℕ, zero, suc, List, [], ◌∷◌, ◌++◌, Bool, true, false, ◌||◌, if◌then◌else◌, ltb, leb, length, take,
  Option, none, some,
}
use context.Text.Table
use context.Text.Table.{Table}
use context.Text.{Text, Unicode, codes, text_eq, is_empty, trim_space}
use context.Auth.Keys.{Key, parse_key, hash_key}
use context.Auth.Bucket.{TokenBucket, new_token_bucket, allow}

-- defaultRateLimit, maxBuckets
abbrev pub default_rate_limit : ℕ
default_rate_limit = 6000

abbrev pub max_buckets : ℕ
max_buckets = 4096

pub record ApiKeyAuth : Type 0 where
  pub valid_keys : Table Text
  pub rate_limit : ℕ
  pub buckets : Table TokenBucket

unfoldable pub rate_limit_of : ℤ → ℕ
rate_limit_of (pos zero) = default_rate_limit
rate_limit_of (pos (suc n)) = suc n
rate_limit_of (negsuc n) = default_rate_limit

-- the identifier of a configured key: its own, or a prefix of its hash
unfoldable pub key_id : (Text → List ℕ) → Text → Text
key_id digest k = elim (parse_key k) [
  | some parsed ↦ parsed.id
  | none ↦ codes "legacy-" ++ take 8 (hash_key digest k)
]

-- the loop of `NewAPIKeyAuth`
unfoldable pub add_keys : Unicode → (Text → List ℕ) → Table Text → List Text → Table Text
add_keys u digest valid [] = valid
add_keys u digest valid (raw ∷ keys) =
    let k = trim_space u raw in
    add_keys u digest
      (if is_empty k then valid else Table.put (hash_key digest k) (key_id digest k) valid) keys

unfoldable pub new_api_key_auth : Unicode → (Text → List ℕ) → List Text → ℤ → ApiKeyAuth
unfolding add_keys
new_api_key_auth u digest keys rate_limit = record {
  valid_keys = add_keys u digest [] keys;
  rate_limit = rate_limit_of rate_limit;
  buckets = [];
}

-- The loop of `verify`; `hashesEqual` is equality of the bytes.
unfoldable pub find_hash : Text → Table Text → Option Text
find_hash sum [] = none
find_hash sum ((stored, id) ∷ valid) = if text_eq stored sum then some id else find_hash sum valid

unfoldable pub verify : (Text → List ℕ) → ApiKeyAuth → Text → Option Text
unfolding find_hash
verify digest a presented =
    if is_empty presented then none else find_hash (hash_key digest presented) a.valid_keys

-- the loop of `evictIdlestLocked`
unfoldable pub idlest : Text → ℕ → Table TokenBucket → Text
idlest key oldest [] = key
idlest key oldest ((k, b) ∷ rest) =
    let older = is_empty key || ltb b.last_time oldest in
    idlest (if older then k else key) (if older then b.last_time else oldest) rest

unfoldable pub evict_idlest : ApiKeyAuth → ApiKeyAuth
unfolding idlest
evict_idlest a =
    let victim = idlest [] 0 a.buckets in
    if is_empty victim then a else record a { buckets = Table.remove victim a.buckets }

-- the eviction of `allowRequest`, where the map is full
unfoldable pub make_room : ApiKeyAuth → ApiKeyAuth
make_room a = if leb max_buckets (length a.buckets) then evict_idlest a else a

-- `bucket.allow()`, written back
unfoldable pub charge : ApiKeyAuth → Text → TokenBucket → ℕ → ApiKeyAuth × Bool
charge a key bucket now =
    let (b, admitted) = allow bucket now in
    (record a { buckets = Table.put key b a.buckets }, admitted)

-- `now` is the clock of the call; the source holds its mutex throughout.
unfoldable pub allow_request : ApiKeyAuth → Text → ℕ → ApiKeyAuth × Bool
unfolding charge make_room
allow_request a key now = elim (Table.get key a.buckets) [
  | some bucket ↦ charge a key bucket now
  | none ↦ charge (make_room a) key (new_token_bucket a.rate_limit now) now
]
