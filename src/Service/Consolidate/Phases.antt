-- ===== src/Service/Consolidate/Phases.antt =====
-- The phases of the run and the run itself.
use context.Prelude.{
  ℕ, ◌-◌, ◌*◌, List, [], ◌∷◌, ◌++◌, Bool, ◌&&◌, if◌then◌else◌, ltb, ◌==◌, Option, some, Result, ok,
  failed,
}
use context.Text.{Text, text_eq}
use context.Model.Memory.{semantic}
use context.Service.Consolidate.{
  Floats, Memory, Edge, Repo, ConsolidationConfig, ConsolidationResult, RunError, merge_phase,
  decay_phase, prune_phase, degraded_err, Tally, counted, loop,
}

-- `memKey`
abbrev pub MemKey : Type 0
MemKey = Text × Text

abbrev pub key_eq : MemKey → MemKey → Bool
key_eq (p, c) (q, d) = text_eq p q && text_eq c d

abbrev pub Groups : Floats → Type 0
Groups F = List (MemKey × List (Memory F))

module _ {F : Floats} where
  abbrev pub mem_key : Memory F → MemKey
  mem_key m = (m.project_id, m.content)

  unfoldable pub add_to_group : Groups F → Memory F → Groups F
  add_to_group [] m = (mem_key m, m ∷ []) ∷ []
  add_to_group ((k, ms) ∷ gs) m =
      let later = add_to_group gs m in
      if key_eq k (mem_key m) then (k, ms ++ (m ∷ [])) ∷ gs else (k, ms) ∷ later

  unfoldable pub groups_of : List (Memory F) → Groups F
  unfolding add_to_group
  groups_of ms = loop add_to_group [] ms

  -- The more recent of two, the first if they are equally old.
  unfoldable pub newer : Memory F → Memory F → Memory F
  newer best m = if ltb best.created_at m.created_at then m else best

-- The nanoseconds of a day.
abbrev pub day : ℕ
day = 24 * 3600 * 1000000000

module _ {F : Floats} where
  -- `ageDays > cfg.PruneAgeDays`
  abbrev pub is_aged : ConsolidationConfig F → ℕ → Memory F → Bool
  is_aged cfg now m = ltb (cfg.prune_age_days * day) (now - m.created_at)

  unfoldable pub is_stale : ConsolidationConfig F → ℕ → Memory F → Bool
  is_stale cfg now m =
      F.gt cfg.stale_threshold m.decay_score && (m.access_count == 0 && is_aged cfg now m)

module _ {F : Floats} {W E : Type 0} (repo : Repo F W E) where
  abbrev pub State : Type 0
  State = W × Tally

  -- An edge from `newest` to `m`.
  unfoldable pub supersede : Memory F → State → Memory F → State
  unfolding counted
  supersede newest (w, t) m =
      let (w1, id) = repo.new_id w in
      let (w2, created_at) = repo.now w1 in
      let edge : Edge = record {
        id = id;
        from_id = newest.id;
        to_id = m.id;
        created_at = created_at;
      } in
      let (w3, r) = repo.create_edge w2 edge in (w3, counted r t)

  unfoldable pub supersede_older : Memory F → State → Memory F → State
  unfolding supersede
  supersede_older newest s m = if m.id == newest.id then s else supersede newest s m

  unfoldable pub merge_group : State → MemKey × List (Memory F) → State
  unfolding supersede_older newer
  merge_group s (k, []) = s
  merge_group s (k, m ∷ []) = s
  merge_group s (k, m ∷ n ∷ ms) = loop (supersede_older (loop newer m (n ∷ ms))) s (m ∷ n ∷ ms)

  abbrev pub no_tally : Tally
  no_tally = record { done = 0; undone = 0 }

  -- `iterate` is the order in which Go ranges over the map.
  unfoldable pub phase_merge : (Groups F → Groups F) → W → W × Result E Tally
  unfolding groups_of merge_group
  phase_merge iterate w =
      let (w', r) = repo.query_memories w (record { types = semantic ∷ []; top_k = 100 }) in
      elim r [
        | failed e ↦ (w', failed e)
        | ok ms ↦
            let (w'', t) = loop merge_group (w', no_tally) (iterate (groups_of ms)) in (w'', ok t)
      ]

  -- `frequencyBoost` and `newScore` are cut off at 1.
  unfoldable pub at_most_one : F.Float → F.Float
  at_most_one x = if F.gt x F.one then F.one else x

  unfoldable pub new_score : ConsolidationConfig F → ℕ → Memory F → F.Float
  unfolding at_most_one
  new_score cfg now m =
      let half_life_hours = F.times cfg.decay_half_life_days F.hours_of_day in
      let hours_since = F.hours (now - m.created_at) in
      let base_decay = F.exp_neg (F.over (F.times F.decay_rate hours_since) half_life_hours) in
      let frequency_boost = at_most_one (F.over (F.log1p (F.of_ℕ m.access_count)) F.five) in
      at_most_one (F.times base_decay (F.plus F.one frequency_boost))

  unfoldable pub rescore : ConsolidationConfig F → ℕ → State → Memory F → State
  unfolding counted new_score
  rescore cfg now (w, t) m =
      let (w', r) = repo.update_decay_score w m.id (new_score cfg now m) in (w', counted r t)

  unfoldable pub phase_decay : ConsolidationConfig F → W → W × Result E Tally
  unfolding rescore
  phase_decay cfg w =
      let (w', r) = repo.query_memories w (record { types = []; top_k = 1000 }) in
      elim r [
        | failed e ↦ (w', failed e)
        | ok ms ↦
            let (w1, now) = repo.now w' in
            let (w2, t) = loop (rescore cfg now) (w1, no_tally) ms in (w2, ok t)
      ]

  unfoldable pub prune : ConsolidationConfig F → ℕ → State → Memory F → State
  unfolding counted is_stale
  prune cfg now (w, t) m =
      let (w', r) = repo.delete_memory w m.id in
      if is_stale cfg now m then (w', counted r t) else (w, t)

  unfoldable pub phase_prune : ConsolidationConfig F → W → W × Result E Tally
  unfolding prune
  phase_prune cfg w =
      let (w', r) = repo.query_memories w (record { types = []; top_k = 1000 }) in
      elim r [
        | failed e ↦ (w', failed e)
        | ok ms ↦
            let (w1, now) = repo.now w' in
            let (w2, t) = loop (prune cfg now) (w1, no_tally) ms in (w2, ok t)
      ]

  abbrev pub no_result : ConsolidationResult
  no_result = record {
    memories_decayed = 0;
    memories_pruned = 0;
    edges_merged = 0;
    merge_failures = 0;
    decay_failures = 0;
    prune_failures = 0;
  }

  abbrev pub Run : Type 0
  Run = W × ConsolidationResult × Option (RunError E)

  -- The run from the end of each phase on; a phase that fails ends it.
  unfoldable pub after_prune : ConsolidationResult → W × Result E Tally → Run
  unfolding degraded_err
  after_prune result (w, failed e) = (w, result, some (prune_phase e))
  after_prune result (w, ok t) =
      let all = record result { memories_pruned = t.done; prune_failures = t.undone } in
      (w, all, degraded_err all)

  unfoldable pub after_decay :
      ConsolidationConfig F → ConsolidationResult → W × Result E Tally → Run
  unfolding phase_prune after_prune
  after_decay cfg result (w, failed e) = (w, result, some (decay_phase e))
  after_decay cfg result (w, ok t) =
      after_prune (record result { memories_decayed = t.done; decay_failures = t.undone })
        (phase_prune cfg w)

  unfoldable pub after_merge :
      ConsolidationConfig F → ConsolidationResult → W × Result E Tally → Run
  unfolding phase_decay after_decay
  after_merge cfg result (w, failed e) = (w, result, some (merge_phase e))
  after_merge cfg result (w, ok t) =
      after_decay cfg (record result { edges_merged = t.done; merge_failures = t.undone })
        (phase_decay cfg w)

  unfoldable pub run_consolidation : (Groups F → Groups F) → ConsolidationConfig F → W → Run
  unfolding phase_merge after_merge
  run_consolidation iterate cfg w = after_merge cfg no_result (phase_merge iterate w)
