-- ===== src/Tests/Auth.antt =====
-- Tests of keys, buckets and gates.
use context.Prelude.Int.{pos}
use context.Prelude.{
  ℕ, ◌+◌, ◌*◌, ◌-◌, ◌≤◌, ◌≡◌, ◌≢◌, ◌↔◌, ◌⊎◌, refl, List, [], ◌∷◌, true, false, some, none, arith,
  if◌then◌else◌, Option, length, All, zero, suc, ap, ◌<◌,
}
use mathlib.Core.Path.{subst}
use context.Text.{Text, codes, text_eq, text_mem, is_empty}
use context.Text.Table
use context.Model.Content.{hex_encode}
use context.Auth.Keys.{Key, key_string, parse_key, generate_key, hash_key}
use context.Auth.Keys.Wire.{IsIssued, parse_key-eq_some_iff, generate_key-parse_key}
use context.Auth.Bucket.{TokenBucket, new_token_bucket, token, allow, retry_after_seconds}
use context.Auth.Bucket.Rate.{serve_bound, allow_after_retry}
use context.Auth.Bucket.Rate
use context.Auth.Limiter.{ApiKeyAuth, new_api_key_auth, verify, allow_request, max_buckets}
use context.Auth.Limiter.Bounds.{IsValid, allow_request-IsValid, get-allow_request, IsOldest}
use context.Auth.Limiter.Verify.{verify-new_api_key_auth_iff, IsSome, HasHash}
use context.Auth.Gate.{
  HttpRequest, serve, http_middleware, unary_interceptor, handled, Header, ascii_lower,
  public_paths, values, rate_limited_header, resource_exhausted, api_key_from_metadata, Metadata,
  api_key_header,
}
use context.Auth.Gate.Access.{IsServed, http_middleware-IsServed, forged_is_charged}
use context.Tests.{ascii, toy_digest}

abbrev issued : Key
issued = record { id = codes "a1b2"; secret = codes "se_cret" }

parse_key-eq_some_iff_example :
    (parse_key (codes "ctx0_a1b2_se_cret") ≡ some issued)
    ↔ (IsIssued issued × (codes "ctx0_a1b2_se_cret" ≡ key_string issued))
parse_key-eq_some_iff_example = parse_key-eq_some_iff (codes "ctx0_a1b2_se_cret") issued

abbrev secret : Text
secret = codes "process-secret"

abbrev zeros_of : ℕ → List ℕ
zeros_of zero = []
zeros_of (suc n) = 0 ∷ zeros_of n

abbrev read : ℕ → ℕ → Option (List ℕ)
read i n = some (zeros_of n)

zeros_of_lem : (n : ℕ) → (length (zeros_of n) ≡ n) × All (λ b. b < 256) (zeros_of n)
zeros_of_lem zero = (refl, tt)
zeros_of_lem (suc n) = let (p, q) = zeros_of_lem n in (ap suc p, (omega arith, q))

abbrev encode : List ℕ → Text
encode bs = codes "AA"

abbrev minted : Key
minted = record { id = codes "000000000000"; secret = codes "AA" }

reads : (i n : ℕ) (bs : List ℕ) → read i n ≡ some bs → (length bs ≡ n) × All (λ b. b < 256) bs
reads i n bs e =
    let made : zeros_of n ≡ bs = cc in
    subst (λ (l : List ℕ). (length l ≡ n) × All (λ b. b < 256) l) made (zeros_of_lem n)

generate_key-parse_key_example : parse_key (key_string minted) ≡ some minted
unfolding generate_key is_empty hex_encode
generate_key-parse_key_example = generate_key-parse_key read encode minted reads (λ bs h. refl) refl

serve_bound_example :
    Rate.serve (new_token_bucket 2 0) (0 ∷ 5 ∷ 9 ∷ []) * token
    ≤ (new_token_bucket 2 0).tokens
      + (60_000_000_000 - (new_token_bucket 2 0).last_time) * (new_token_bucket 2 0).max
unfolding new_token_bucket
serve_bound_example =
    serve_bound (new_token_bucket 2 0) (0 ∷ 5 ∷ 9 ∷ []) 60_000_000_000 (omega arith)

abbrev spent : TokenBucket
spent = record { tokens = 0; max = 7; last_time = 1000 }

allow_after_retry_example : (allow (allow spent 1000).0 9_000_001_000).1 ≡ true
unfolding allow retry_after_seconds
allow_after_retry_example =
    allow_after_retry spent 1000 9_000_001_000 (omega arith) refl (omega arith)

abbrev secret_key : Text
secret_key = codes "ctx0_a1b2_xyz"

abbrev auth : ApiKeyAuth
auth = record {
  valid_keys = (hash_key toy_digest secret_key, codes "a1b2") ∷ [];
  rate_limit = 2;
  buckets =
      (codes "a1b2", record { tokens = 120_000_000_000; max = 2; last_time = 7 })
      ∷ (codes "old", record { tokens = 5; max = 2; last_time = 3 })
      ∷ [];
}

auth-IsValid : IsValid auth
unfolding Table.get text_eq is_empty
auth-IsValid = record {
  table = (refl, (refl, tt));
  entries = (
    record { named = refl; capped = omega arith; limit_kept = refl },
    (record { named = refl; capped = omega arith; limit_kept = refl }, tt),
  );
  bounded = omega arith;
}

allow_request-IsValid_example : IsValid (allow_request auth (codes "new") 10).0
unfolding is_empty
allow_request-IsValid_example = allow_request-IsValid auth (codes "new") 10 auth-IsValid refl

get-allow_request_example :
    (Table.get (codes "old") (allow_request auth (codes "new") 10).0.buckets
      ≡ Table.get (codes "old") auth.buckets)
    ⊎ ((max_buckets ≤ length auth.buckets)
        × (b : TokenBucket) × (Table.get (codes "old") auth.buckets ≡ some b)
        × IsOldest b auth.buckets)
unfolding text_eq
get-allow_request_example = get-allow_request auth (codes "new") (codes "old") 10 auth-IsValid refl

verify-new_api_key_auth_iff_example :
    IsSome
      (verify toy_digest (new_api_key_auth ascii toy_digest (codes " k " ∷ []) (pos 0)) (codes "k"))
    ↔ ((is_empty (codes "k") ≡ false)
        × HasHash ascii toy_digest (hash_key toy_digest (codes "k")) (codes " k " ∷ []))
verify-new_api_key_auth_iff_example =
    verify-new_api_key_auth_iff ascii toy_digest (codes " k " ∷ []) (pos 0) (codes "k")

abbrev request : HttpRequest
request = record {
  path = codes "/v1/memories";
  api_key = secret_key;
  marker = none;
  others = (codes "Accept", codes "*/*") ∷ (codes "X-Trace", codes "7") ∷ [];
}

abbrev marked : HttpRequest
marked = record request { marker = some secret }

program : Unit {0}
unfolding http_middleware verify allow_request allow text_mem text_eq is_empty public_paths
    Table.get Table.put hash_key hex_encode
program = tt

served : (http_middleware toy_digest secret auth request 10).1 ≡ serve false marked
unfolding program
served = refl

http_middleware-IsServed_example : IsServed toy_digest secret auth request 10 false marked
http_middleware-IsServed_example =
    http_middleware-IsServed toy_digest secret auth request 10 false marked served

-- A gateway that passes the permanent headers on and meets the headers in their order.
abbrev permanent : Text → Option Text
permanent name = if text_eq name (codes "Accept") then some (codes "grpcgateway-Accept") else none

abbrev put_value : Option Text → Text → Metadata → Metadata
put_value none v md = md
put_value (some k) v md = (ascii_lower k, v ∷ values (ascii_lower k) md) ∷ md

abbrev annotate : (Text → Option Text) → List Header → Metadata
annotate match [] = []
annotate match ((name, v) ∷ headers) = put_value (match name) v (annotate match headers)

abbrev or_none : Option (List Text) → List Text
or_none o = elim o [ none ↦ [] | some vs ↦ vs ]

abbrev first_char : List Text → ℕ
first_char ((c ∷ t) ∷ ts) = c
first_char _ = 0

abbrev forged : Metadata
forged = (api_key_header, secret_key ∷ []) ∷ (rate_limited_header, codes "1" ∷ []) ∷ []

not_the_secret : (rest : List Text) → values rate_limited_header forged ≢ secret ∷ rest
unfolding Table.get text_eq
not_the_secret rest e = let wrong : ◌≡◌ {A = ℕ} 49 112 = ap first_char e in absurd (omega arith)

forged_is_charged_example :
    unary_interceptor toy_digest secret auth (codes "/kora.v1.Kora/Store") (some forged) 12 ≡ (
      (allow_request auth (codes "a1b2") 12).0,
      if (allow_request auth (codes "a1b2") 12).1 then handled false else resource_exhausted,
    )
unfolding program api_key_from_metadata
forged_is_charged_example =
    forged_is_charged toy_digest secret auth (codes "/kora.v1.Kora/Store") forged 12 (codes "a1b2")
      refl refl refl not_the_secret
