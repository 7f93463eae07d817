-- ===== src/Auth/Gate.antt =====
-- Who gets through: the HTTP middleware, and the gRPC interceptor behind the gateway
-- (internal/auth/apikey.go). `token` is the secret of the process that marks a request whose
-- rate-limit token is spent.
pub mod Access
use context.Prelude.{
  ℕ, List, [], ◌∷◌, Bool, true, false, ◌&&◌, ◌||◌, not, if◌then◌else◌, Option, none, some, map,
  ◌++◌, ◌+◌, leb,
}
use context.Text.Table
use context.Text.Table.{Table}
use context.Text.{Text, codes, text_eq, text_mem, is_empty}
use context.Auth.Bucket.{retry_after_seconds}
use context.Auth.Limiter.{ApiKeyAuth, verify, allow_request}

-- the part of an HTTP request that the middleware reads, where an absent header reads as empty, and
-- its other headers, each with a name and a value
pub record HttpRequest : Type 0 where
  pub path : Text
  pub api_key : Text
  pub marker : Option Text
  pub others : List (Text × Text)

pub data HttpOutcome : Type 0 where
  serve : Bool → HttpRequest → HttpOutcome
  unauthorized : HttpOutcome
  too_many_requests : ℕ → HttpOutcome

-- publicPaths
unfoldable pub public_paths : List Text
public_paths = map codes ("/livez" ∷ "/readyz" ∷ "/startupz" ∷ "/v1/health" ∷ "/metrics" ∷ [])

abbrev pub is_nil_table {ℓ} : {V : Type ℓ} → Table V → Bool
is_nil_table [] = true
is_nil_table (e ∷ t) = false

-- The public branch: a verified caller within its limit is marked and served as authenticated.
unfoldable pub serve_public :
    Text → ApiKeyAuth → HttpRequest → ℕ → Option Text → ApiKeyAuth × HttpOutcome
serve_public token a r now none = (a, serve false r)
serve_public token a r now (some key) =
    let (a', admitted) = allow_request a key now in
    if admitted then (a', serve true (record r { marker = some token })) else (a', serve false r)

unfoldable pub serve_verified :
    Text → ApiKeyAuth → HttpRequest → ℕ → Option Text → ApiKeyAuth × HttpOutcome
serve_verified token a r now none = (a, unauthorized)
serve_verified token a r now (some key) =
    let (a', admitted) = allow_request a key now in
    if admitted
    then (a', serve false (record r { marker = some token }))
    else (a', too_many_requests (retry_after_seconds a.rate_limit))

unfoldable pub http_middleware :
    (Text → List ℕ) → Text → ApiKeyAuth → HttpRequest → ℕ → ApiKeyAuth × HttpOutcome
unfolding serve_public serve_verified
http_middleware digest token a r now =
    if text_mem r.path public_paths
    then serve_public token a r now (verify digest a r.api_key)
    else if is_nil_table a.valid_keys
    then (a, serve false r)
    else serve_verified token a r now (verify digest a r.api_key)

-- Incoming gRPC metadata: for each key its values.
abbrev pub Metadata : Type 0
Metadata = Table (List Text)

abbrev pub api_key_header : Text
api_key_header = codes "x-api-key"

abbrev pub gateway_api_key_header : Text
gateway_api_key_header = codes "grpcgateway-x-api-key"

abbrev pub rate_limited_header : Text
rate_limited_header = codes "x-kora-rate-limited"

abbrev pub values : Text → Metadata → List Text
values key md = elim (Table.get key md) [ none ↦ [] | some vs ↦ vs ]

-- `none` is a context with no metadata.
unfoldable pub already_rate_limited : Text → Option Metadata → Bool
already_rate_limited token none = false
already_rate_limited token (some md) = elim (values rate_limited_header md) [
  | [] ↦ false
  | got ∷ _ ↦ if is_empty token then false else text_eq got token
]

unfoldable pub first_or : List Text → Text → Text
first_or [] d = d
first_or (k ∷ ks) d = k

unfoldable pub api_key_from_metadata : Option Metadata → Text
unfolding first_or
api_key_from_metadata none = []
api_key_from_metadata (some md) =
    first_or (values api_key_header md) (first_or (values gateway_api_key_header md) [])

pub data GrpcOutcome : Type 0 where
  handled : Bool → GrpcOutcome
  unauthenticated resource_exhausted : GrpcOutcome

-- `alreadyRateLimited(ctx) || a.allowRequest(keyID)`
unfoldable pub admit : Text → ApiKeyAuth → Option Metadata → Text → ℕ → ApiKeyAuth × Bool
admit token a md key now =
    if already_rate_limited token md then (a, true) else allow_request a key now

abbrev pub health_method : Text
health_method = codes "/kora.v1.HealthService/Health"

unfoldable pub answer_health :
    Text → ApiKeyAuth → Option Metadata → ℕ → Option Text → ApiKeyAuth × GrpcOutcome
unfolding admit
answer_health token a md now none = (a, handled false)
answer_health token a md now (some key) =
    let (a', admitted) = admit token a md key now in (a', handled admitted)

unfoldable pub answer_verified :
    Text → ApiKeyAuth → Option Metadata → ℕ → Option Text → ApiKeyAuth × GrpcOutcome
unfolding admit
answer_verified token a md now none = (a, unauthenticated)
answer_verified token a md now (some key) =
    let (a', admitted) = admit token a md key now in
    if admitted then (a', handled false) else (a', resource_exhausted)

unfoldable pub unary_interceptor :
    (Text → List ℕ) → Text → ApiKeyAuth → Text → Option Metadata → ℕ → ApiKeyAuth × GrpcOutcome
unfolding answer_health answer_verified
unary_interceptor digest token a method md now =
    let presented = api_key_from_metadata md in
    if text_eq method health_method
    then answer_health token a md now (verify digest a presented)
    else if is_nil_table a.valid_keys
    then (a, handled false)
    else if is_empty presented
    then (a, unauthenticated)
    else answer_verified token a md now (verify digest a presented)

abbrev pub Header : Type 0
Header = Text × Text

-- The headers of a request that the middleware served. An empty key is taken for no header.
unfoldable pub request_headers : HttpRequest → List Header
unfolding is_empty
request_headers r =
    (if is_empty r.api_key then [] else (codes "X-Api-Key", r.api_key) ∷ [])
    ++ (elim r.marker [ none ↦ [] | some m ↦ (codes "X-Kora-Rate-Limited", m) ∷ [] ] ++ r.others)

-- strings.EqualFold and strings.ToLower of ASCII texts, as the names of headers are.
unfoldable pub ascii_lower : Text → Text
ascii_lower = map (λ c. if leb b'A' c && leb c b'Z' then c + 32 else c)

unfoldable pub equal_fold : Text → Text → Bool
unfolding ascii_lower text_eq
equal_fold s t = text_eq (ascii_lower s) (ascii_lower t)

-- Under which name the gateway is told to forward a header (cmd/server/main.go); `default` is the
-- DefaultHeaderMatcher of grpc-gateway.
unfoldable pub incoming_header_matcher : (Text → Option Text) → Text → Option Text
unfolding equal_fold
incoming_header_matcher default key =
    if equal_fold key (codes "X-API-Key")
    then some api_key_header
    else if equal_fold key rate_limited_header
    then some rate_limited_header
    else default key
