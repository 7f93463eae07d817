-- ===== src/Config/Usable.antt =====
-- What a configuration that passes Validate is.
use context.Prelude.{ℕ, ◌≡◌, ◌≢◌, ◌⊎◌, ◌++◌, true, false, some, All, ◌≤◌}
use context.Prelude.Int.{ℤ, pos, negsuc}
use context.Text.{Text, codes, is_empty}
use context.Config.{Env, Config, atoi}

abbrev pub Within : ℕ → ℕ → ℤ → Type 0
Within lo hi (pos n) = (lo ≤ n) × (n ≤ hi)
Within lo hi (negsuc n) = ⊥

abbrev pub Positive : ℤ → Type 0
Positive (pos n) = 1 ≤ n
Positive (negsuc n) = ⊥

-- The settings with which the server can run.
pub record Usable (c : Config) : Type 0 where
  pub grpc_in_range : Within 1 65535 c.grpc_port
  pub http_in_range : Within 1 65535 c.http_port
  pub ports_differ : c.grpc_port ≢ c.http_port
  pub limit_is_positive : Positive c.rate_limit_per_minute
  pub signals_known : (c.graph_signals ≡ codes "on") ⊎ (c.graph_signals ≡ codes "off")
  pub dim_in_range : Within 0 65536 c.embedding_dim

-- The number is what the variable says, or the fallback if it is not set or empty.
abbrev pub Reads : Env → Text → ℤ → ℤ → Type 0
Reads env key fallback z =
    ((is_empty (env.getenv key) ≡ true) × (z ≡ fallback))
    ⊎ ((is_empty (env.getenv key) ≡ false) × (atoi (env.getenv key) ≡ some z))

-- A line of the environment that sets a variable with the old prefix.
abbrev pub SetsOld : Text → Type 0
SetsOld kv =
    (name : Text) × (value : Text) × (kv ≡ codes "CONTEXT0_" ++ (name ++ (codes "=" ++ value)))

-- The configuration says what the environment says.
pub record Loaded (env : Env) (c : Config) : Type 0 where
  pub nothing_renamed : All (λ kv. SetsOld kv → ⊥) env.environ
  pub grpc_read : Reads env (codes "KORA_GRPC_PORT") (pos 50051) c.grpc_port
  pub http_read : Reads env (codes "KORA_HTTP_PORT") (pos 8080) c.http_port
  pub limit_read : Reads env (codes "KORA_RATE_LIMIT_PER_MINUTE") (pos 6000) c.rate_limit_per_minute
  pub dim_read : Reads env (codes "KORA_EMBEDDING_DIM") (pos 0) c.embedding_dim
