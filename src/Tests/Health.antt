-- ===== src/Tests/Health.antt =====
-- Tests of the health endpoint.
use context.Prelude.{ℕ, ◌+◌, [], ◌≡◌, refl, true, false, ok, failed}
use context.Text.{codes, text_eq, is_empty}
use context.Service.Health.{
  HealthRepo, Providers, Cache, GraphStats, bare, full, health, after_ping, graph_stats, is_fresh,
  recount, count_edges, keep, or_stale, respond_stats, zero_dependency_defaults,
}

-- The world is the time, and the nodes cannot be counted.
abbrev repo : HealthRepo ℕ (Unit {0})
repo = record {
  ping = λ w. (w, ok tt);
  node_count = λ w. (w + 1, failed tt);
  edge_count = λ w. (w + 1, ok 5);
  now = λ w. (w, w);
}

abbrev providers : Providers
providers = record { embedding = []; extraction = codes "rule"; graph_signals_disabled = false }

abbrev counts : GraphStats
counts = record { nodes = 3; edges = 4 }

abbrev cache : Cache
cache = record { stats = counts; stats_at = 0; has_stats = true }

program : Unit {0}
unfolding health after_ping graph_stats is_fresh recount count_edges keep or_stale respond_stats
    full text_eq is_empty zero_dependency_defaults
program = tt

anonymous_test : (health repo (codes "1") providers 9000000000 cache false).1 ≡ ok bare
unfolding program
anonymous_test = refl

stale_test :
    (health repo (codes "1") providers 9000000000 cache true).1
    ≡ ok (full (codes "1") providers counts)
unfolding program
stale_test = refl
