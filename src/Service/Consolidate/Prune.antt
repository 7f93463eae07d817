-- ===== src/Service/Consolidate/Prune.antt =====
-- Which memories the prune phase deletes.
use context.Prelude.{
  ℕ, ◌<◌, ◌*◌, ◌-◌, ◌≡◌, refl, List, [], true, ok, Bool-cases, inl, inr, arith, Member, All, ==_iff,
}
use context.Service.Consolidate.{Floats, Memory, Repo, ConsolidationConfig}
use context.Service.Consolidate.Phases.{State, is_stale, prune, phase_prune, day}
use context.Service.Consolidate.Ledger.{Write, deletes, noted, loop_inv}

module _ {F : Floats} (cfg : ConsolidationConfig F) (now : ℕ) where
  -- Below the threshold, never read, and older than the configured days.
  pub record Abandoned (m : Memory F) : Type 0 where
    pub low : F.gt cfg.stale_threshold m.decay_score ≡ true
    pub unread : m.access_count ≡ 0
    pub old : cfg.prune_age_days * day < now - m.created_at

  is_stale-Abandoned : (m : Memory F) → is_stale cfg now m ≡ true → Abandoned m
  unfolding is_stale
  is_stale-Abandoned m h = record {
    low = ground arith;
    unread = ground (arith, ==_iff m.access_count 0);
    old = ground arith;
  }

  -- The write deletes an abandoned memory of the list.
  abbrev pub Deletes : List (Memory F) → Write F → Type 0
  Deletes ms x = (m : Memory F) × Member m ms × (x ≡ deletes m.id) × Abandoned m

module _ {F : Floats} {W E : Type 0} (repo : Repo F W E) (cfg : ConsolidationConfig F) where
  prune-Deletes :
      (now : ℕ) (ms : List (Memory F)) (s : State (noted repo)) (m : Memory F)
      → Member m ms
      → All (λ e. Deletes cfg now ms e.0) s.0.1
      → All (λ e. Deletes cfg now ms e.0) (prune (noted repo) cfg now s m).0.1
  unfolding prune
  prune-Deletes now ms s m x h = elim (Bool-cases (is_stale cfg now m)) [
    | inl e ↦ rw e ((m, x, refl, is_stale-Abandoned cfg now m e), h)
    | inr e ↦ rw e h
  ]

  -- Every write of the prune phase deletes a memory that was read, that was never retrieved, whose
  -- score is below the threshold and that is older than the configured days by the clock that was
  -- read after the query.
  pub phase_prune-Deletes :
      (w : W) (ms : List (Memory F))
      → (repo.query_memories w (record { types = []; top_k = 1000 })).1 ≡ ok ms
      → All
          (λ e.
            Deletes cfg
              (repo.now (repo.query_memories w (record { types = []; top_k = 1000 })).0).1
              ms
              e.0)
          (phase_prune (noted repo) cfg (w, [])).0.1
  unfolding phase_prune
  phase_prune-Deletes w ms e =
      rw (e, phase_prune)
        (loop_inv (λ s. All (λ e. Deletes cfg _ ms e.0) s.0.1) _ ms
          (λ s m x. prune-Deletes _ ms s m x) _ tt)
