-- ===== src/Auth/Gate/Access.antt =====
-- Nobody gets through without a key, and nobody is charged twice.
use context.Prelude.{
  ℕ, ◌≡◌, refl, ap, ◌≢◌, ◌⊎◌, inl, inr, List, [], ◌∷◌, Bool, true, false, if◌then◌else◌, Option,
  some, none, arith, Bool-cases,
}
use context.Text.{Text, text_eq, text_mem, is_empty}
use context.Text.Words.{text_eq_iff}
use context.Auth.Limiter.{ApiKeyAuth, verify, allow_request}
use context.Auth.Gate.{
  HttpRequest, serve, public_paths, is_nil_table, http_middleware, Metadata, values,
  rate_limited_header, already_rate_limited, api_key_from_metadata, handled, health_method,
  unary_interceptor, resource_exhausted, Header, request_headers, incoming_header_matcher,
  ascii_lower, api_key_header,
}
use context.Prelude.Perm.{Perm}

-- A request that brings an accepted key, and whose bucket has a token for it.
abbrev pub IsAdmitted : (Text → List ℕ) → ApiKeyAuth → Text → ℕ → Type 0
IsAdmitted digest a presented now =
    (key : Text) × (verify digest a presented ≡ some key) × ((allow_request a key now).1 ≡ true)

-- How the middleware comes to serve a request. For a public path: unmarked, or with an accepted key
-- and a token. For any other: with authentication switched off, or with an accepted key and a
-- token, and then marked.
abbrev pub IsServed :
    (Text → List ℕ) → Text → ApiKeyAuth → HttpRequest → ℕ → Bool → HttpRequest → Type 0
IsServed digest token a r now known r' =
    ((text_mem r.path public_paths ≡ true) × (known ≡ false) × (r' ≡ r))
    ⊎ ((text_mem r.path public_paths ≡ true) × (known ≡ true) × IsAdmitted digest a r.api_key now)
    ⊎ ((is_nil_table a.valid_keys ≡ true) × (known ≡ false) × (r' ≡ r))
    ⊎ (IsAdmitted digest a r.api_key now
        × (known ≡ false)
        × (r' ≡ record r { marker = some token }))

module _ (digest : Text → List ℕ) (token : Text) (a : ApiKeyAuth) where
  -- If the middleware serves a request, the path is public and the request is served as it is
  -- or, for an accepted key with a token, as authenticated; or authentication is switched off;
  -- or the request brings an accepted key with a token and is forwarded with the marker.
  pub http_middleware-IsServed :
      (r : HttpRequest) (now : ℕ) (known : Bool) (r' : HttpRequest)
      → (http_middleware digest token a r now).1 ≡ serve known r'
      → IsServed digest token a r now known r'
  unfolding http_middleware
  http_middleware-IsServed r now known r' h = ground arith

  pub unary_interceptor-handled :
      (method : Text) (md : Option Metadata) (now : ℕ) (known : Bool)
      → (unary_interceptor digest token a method md now).1 ≡ handled known
      → (text_eq method health_method ≡ true)
        ⊎ (is_nil_table a.valid_keys ≡ true)
        ⊎ ((key : Text) × (verify digest a (api_key_from_metadata md) ≡ some key)
            × ((already_rate_limited token md ≡ true) ⊎ ((allow_request a key now).1 ≡ true)))
  unfolding unary_interceptor
  unary_interceptor-handled method md now known h = ground arith

-- The values of the headers that a matcher forwards under a key of the metadata, whose keys are in
-- lower case.
abbrev pub forwarded_as : Option Text → Text → Text → List Text → List Text
forwarded_as none v key rest = rest
forwarded_as (some k) v key rest = if text_eq (ascii_lower k) key then v ∷ rest else rest

abbrev pub forwarded : (Text → Option Text) → List Header → Text → List Text
forwarded match [] key = []
forwarded match ((name, v) ∷ headers) key =
    forwarded_as (match name) v key (forwarded match headers key)

-- What grpc-gateway documents of the metadata of a call, for the two keys that are read: the values
-- of a key are those of the headers that are forwarded under it, in the order, which is not
-- determined, in which it meets them.
pub record IsGateway (annotate : (Text → Option Text) → List Header → Metadata) : Type 0 where
  pub api_keys :
      (match : Text → Option Text) (headers : List Header)
      → Perm
          (forwarded match headers api_key_header)
          (values api_key_header (annotate match headers))
  pub markers :
      (match : Text → Option Text) (headers : List Header)
      → Perm
          (forwarded match headers rate_limited_header)
          (values rate_limited_header (annotate match headers))

-- No other header of the request is forwarded as a key or as a marker, as `Grpc-Metadata-X-Api-Key`
-- would be.
abbrev pub Unclaimed : (Text → Option Text) → HttpRequest → Type 0
Unclaimed default r =
    (forwarded (incoming_header_matcher default) r.others api_key_header ≡ [])
    × (forwarded (incoming_header_matcher default) r.others rate_limited_header ≡ [])

module _ (default : Text → Option Text) (token : Text) (r : HttpRequest)
    (free : Unclaimed default r) (filled : is_empty r.api_key ≡ false) where
  abbrev sent : List Header
  sent = request_headers (record r { marker = some token })

verify_filled :
    (digest : Text → List ℕ) (a : ApiKeyAuth) (presented key : Text)
    → verify digest a presented ≡ some key
    → is_empty presented ≡ false
unfolding verify
verify_filled digest a presented key h = ground arith

not_marked :
    (token : Text) (got : List Text)
    → ((rest : List Text) → got ≢ token ∷ rest)
    → (elim got [ [] ↦ false | g ∷ _ ↦ if is_empty token then false else text_eq g token ]) ≡ false
not_marked token [] h = refl
not_marked token (g ∷ rest) h = elim (Bool-cases (text_eq g token)) [
  | inl e ↦ absurd (h rest (ap (λ t. t ∷ rest) ((text_eq_iff g token).0 e)))
  | inr e ↦ rw e (if_same (is_empty token))
]
  where
    if_same : (b : Bool) → (if b then false else false) ≡ false
    if_same true = refl
    if_same false = refl

-- A call with an accepted key whose metadata does not begin the marker's values with the secret of
-- the process is charged to the bucket of its key, and is handled exactly if that bucket admits it.
pub forged_is_charged :
    (digest : Text → List ℕ) (token : Text) (a : ApiKeyAuth) (method : Text) (md : Metadata)
    (now : ℕ) (key : Text)
    → text_eq method health_method ≡ false
    → is_nil_table a.valid_keys ≡ false
    → verify digest a (api_key_from_metadata (some md)) ≡ some key
    → ((rest : List Text) → values rate_limited_header md ≢ token ∷ rest)
    → unary_interceptor digest token a method (some md) now ≡ (
      (allow_request a key now).0,
      if (allow_request a key now).1 then handled false else resource_exhausted,
    )
forged_is_charged digest token a method md now key m c v h =
    let free : already_rate_limited token (some md) ≡ false =
      unfold already_rate_limited in not_marked token (values rate_limited_header md) h in
    unfold unary_interceptor in
    ground (arith, verify_filled digest a (api_key_from_metadata (some md)) key v)
