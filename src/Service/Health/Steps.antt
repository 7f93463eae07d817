-- ===== src/Service/Health/Steps.antt =====
-- What the endpoint may answer, and that it answers so.
use context.Prelude.{
  ℕ, ◌-◌, ◌<◌, ◌≡◌, ◌⊎◌, Bool, true, false, Option, none, some, Result, ok, failed, if◌then◌else◌,
}
use context.Text.{Text}
use context.Service.Health.{
  stats_ttl, HealthRepo, Providers, GraphStats, Cache, HealthResponse, bare, full,
}

-- The abstract state: the counts that were read last and when, if there are any.
abbrev pub Reading : Type 0
Reading = Option (GraphStats × ℕ)

abbrev pub reading_of : Cache → Reading
reading_of cache = if cache.has_stats then some (cache.stats, cache.stats_at) else none

-- A call that starts in the world `w` reads the clock twice, then the nodes, the edges and the clock.
module _ {W E : Type 0} (repo : HealthRepo W E) (w : W) where
  abbrev after_nodes : W
  after_nodes = (repo.node_count (repo.now (repo.now w).0).0).0

  abbrev NodesAre : Result E ℕ → Type 0
  NodesAre r = (repo.node_count (repo.now (repo.now w).0).0).1 ≡ r

  abbrev EdgesAre : Result E ℕ → Type 0
  EdgesAre r = (repo.edge_count after_nodes).1 ≡ r

  -- The counts cannot be read.
  abbrev pub CountFails : E → Type 0
  CountFails e = NodesAre (failed e) ⊎ EdgesAre (failed e)

  -- What may come of asking for the counts: those of less than the time to live before, those read
  -- now, the last ones where they cannot be read now, or an error where there are none.
  pub data Counts (before : Reading) : Reading → Result E GraphStats → Type 0 where
    recent :
        (s : GraphStats) (at t : ℕ)
        → before ≡ some (s, at)
        → ((repo.now w).1 ≡ t) ⊎ ((repo.now (repo.now w).0).1 ≡ t)
        → t - at < stats_ttl
        → Counts before before (ok s)
    read :
        (s : GraphStats) (t : ℕ)
        → NodesAre (ok s.nodes)
        → EdgesAre (ok s.edges)
        → (repo.now (repo.edge_count after_nodes).0).1 ≡ t
        → Counts before (some (s, t)) (ok s)
    stale :
        (s : GraphStats) (at : ℕ) (e : E)
        → before ≡ some (s, at)
        → CountFails e
        → Counts before before (ok s)
    unknown : (e : E) → before ≡ none → CountFails e → Counts before before (failed e)

  -- The counts, or an error of the count that leaves the cache as it is.
  abbrev Recounted : Cache → (W × Cache) × Result E GraphStats → Type 0
  Recounted cache r =
      ((s : GraphStats) × (r.1 ≡ ok s) × Counts (reading_of cache) (reading_of r.0.1) (ok s))
      ⊎ ((e : E) × (r.1 ≡ failed e) × (r.0.1 ≡ cache) × CountFails e)

module _ {W E : Type 0} (repo : HealthRepo W E) (version : Text) (providers : Providers) where
  -- The database answers.
  abbrev pub Up : W → Type 0
  Up w = (repo.ping w).1 ≡ ok tt

  -- What may come of a call in the world `w`: an error where the database does not answer; where it
  -- does, a bare answer without a key, and otherwise what may come of asking for the counts.
  pub data Step (w : W) (authenticated : Bool) (before : Reading)
      : Reading → Result E HealthResponse → Type 0 where
    down : (e : E) → (repo.ping w).1 ≡ failed e → Step w authenticated before before (failed e)
    anonymous : Up w → authenticated ≡ false → Step w authenticated before before (ok bare)
    counted :
        (after : Reading) (s : GraphStats)
        → Up w
        → authenticated ≡ true
        → Counts repo (repo.ping w).0 before after (ok s)
        → Step w authenticated before after (ok (full version providers s))
    uncounted :
        (after : Reading) (e : E)
        → Up w
        → authenticated ≡ true
        → Counts repo (repo.ping w).0 before after (failed e)
        → Step w authenticated before after (failed e)
