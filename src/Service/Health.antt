-- ===== src/Service/Health.antt =====
-- The health endpoint and its cache of the counts (internal/service/health.go). The repository and
-- the clock are the parameter `HealthRepo`, over a world that their operations change. Concurrent
-- callers, which share one recount, are taken one after the other.
pub mod Steps
use context.Prelude.{
  ℕ, ◌-◌, List, [], ◌∷◌, Bool, true, false, ◌&&◌, ◌||◌, if◌then◌else◌, ltb, Result, ok, failed,
}
use context.Text.{Text, codes, is_empty, text_eq}

-- statsTTL, in nanoseconds
abbrev pub stats_ttl : ℕ
stats_ttl = 5000000000

pub record HealthRepo (W E : Type 0) : Type 0 where
  pub ping : W → W × Result E (Unit {0})
  pub node_count : W → W × Result E ℕ
  pub edge_count : W → W × Result E ℕ
  pub now : W → W × ℕ

pub record Providers : Type 0 where
  pub embedding : Text
  pub extraction : Text
  pub graph_signals_disabled : Bool

unfoldable pub zero_dependency_defaults : Providers → Bool
zero_dependency_defaults p =
    (is_empty p.embedding
      || text_eq p.embedding (codes "bag-of-words")
      || text_eq p.embedding (codes "bow"))
    && (is_empty p.extraction || text_eq p.extraction (codes "rule"))

pub record GraphStats : Type 0 where
  pub nodes : ℕ
  pub edges : ℕ

-- the part of `HealthService` that changes
pub record Cache : Type 0 where
  pub stats : GraphStats
  pub stats_at : ℕ
  pub has_stats : Bool

pub record HealthResponse : Type 0 where
  pub status : Text
  pub version : Text
  pub node_count : ℕ
  pub edge_count : ℕ
  pub embedding_provider : Text
  pub extraction_provider : Text
  pub zero_dependency_defaults : Bool
  pub graph_signals_disabled : Bool

-- A caller without a key is told that the database is reachable, and nothing else.
abbrev pub bare : HealthResponse
bare = record {
  status = codes "ok";
  version = [];
  node_count = 0;
  edge_count = 0;
  embedding_provider = [];
  extraction_provider = [];
  zero_dependency_defaults = false;
  graph_signals_disabled = false;
}

unfoldable pub full : Text → Providers → GraphStats → HealthResponse
full version p s = record {
  status = codes "ok";
  version = version;
  node_count = s.nodes;
  edge_count = s.edges;
  embedding_provider = p.embedding;
  extraction_provider = p.extraction;
  zero_dependency_defaults = zero_dependency_defaults p;
  graph_signals_disabled = p.graph_signals_disabled;
}

unfoldable pub is_fresh : Cache → ℕ → Bool
is_fresh cache t = cache.has_stats && ltb (t - cache.stats_at) stats_ttl

module _ {W E : Type 0} (repo : HealthRepo W E) where
  abbrev pub Counted : Type 0
  Counted = (W × Cache) × Result E GraphStats

  unfoldable pub keep : ℕ → W × Result E ℕ → Cache → Counted
  keep nodes (w, failed e) cache = ((w, cache), failed e)
  keep nodes (w, ok edges) cache =
      let fresh : GraphStats = record { nodes = nodes; edges = edges } in
      let (w', t) = repo.now w in
      ((w', record { stats = fresh; stats_at = t; has_stats = true }), ok fresh)

  unfoldable pub count_edges : W × Result E ℕ → Cache → Counted
  unfolding keep
  count_edges (w, failed e) cache = ((w, cache), failed e)
  count_edges (w, ok nodes) cache = keep nodes (repo.edge_count w) cache

  -- The function of the flight.
  unfoldable pub recount : W → Cache → Counted
  unfolding is_fresh count_edges
  recount w cache =
      let (w1, t) = repo.now w in
      if is_fresh cache t
      then ((w1, cache), ok cache.stats)
      else count_edges (repo.node_count w1) cache

  -- A stale count is served where the recount fails.
  unfoldable pub or_stale : Cache → Counted → Counted
  or_stale cache (s, ok stats) = (s, ok stats)
  or_stale cache (s, failed e) = if cache.has_stats then (s, ok cache.stats) else (s, failed e)

  unfoldable pub graph_stats : W → Cache → Counted
  unfolding is_fresh recount or_stale
  graph_stats w cache =
      let (w1, t) = repo.now w in
      if is_fresh cache t then ((w1, cache), ok cache.stats) else or_stale cache (recount w1 cache)

  module _ (version : Text) (providers : Providers) where
    abbrev pub Answer : Type 0
    Answer = (W × Cache) × Result E HealthResponse

    unfoldable pub respond_stats : Counted → Answer
    unfolding full
    respond_stats (s, failed e) = (s, failed e)
    respond_stats (s, ok stats) = (s, ok (full version providers stats))

    unfoldable pub after_ping : Bool → Cache → W × Result E (Unit {0}) → Answer
    unfolding graph_stats respond_stats
    after_ping authenticated cache (w, failed e) = ((w, cache), failed e)
    after_ping authenticated cache (w, ok done) =
        if authenticated then respond_stats (graph_stats w cache) else ((w, cache), ok bare)

    unfoldable pub health : W → Cache → Bool → Answer
    unfolding after_ping
    health w cache authenticated = after_ping authenticated cache (repo.ping w)
