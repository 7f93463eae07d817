-- ===== src/Tests/Service.antt =====
-- Tests of the maintenance run.
use context.Prelude.{
  ℕ, ◌+◌, ◌*◌, ◌-◌, ◌/◌, ◌≡◌, refl, List, [], ◌∷◌, ltb, ok, failed, All, some, ◌==◌, if◌then◌else◌,
}
use context.Text.{codes, text_eq}
use context.Service.Consolidate.{
  Floats, Memory, Repo, ConsolidationConfig, ConsolidationResult, degraded, degraded_err, failures,
  attempted, counted,
}
use context.Service.Consolidate.Phases.{
  phase_merge, phase_prune, run_consolidation, add_to_group, groups_of, newer, supersede,
  supersede_older, merge_group, new_score, at_most_one, rescore, is_stale, prune, phase_decay,
  after_prune, after_decay, after_merge,
}
use context.Service.Consolidate.Ledger.{noted, Reported, run_consolidation-Reported}
use context.Service.Consolidate.Merge.{Draws, phase_merge-Drawn}
use context.Service.Consolidate.Prune.{Deletes, phase_prune-Deletes}

-- Floating-point numbers as thousandths.
abbrev thousandths : Floats
thousandths = record {
  Float = ℕ;
  of_ℕ = λ n. n * 1000;
  hours = λ n. n * 1000 / 3600000000000;
  one = 1000;
  five = 5000;
  hours_of_day = 24000;
  decay_rate = 693;
  plus = ◌+◌;
  times = λ a b. a * b / 1000;
  over = λ a b. a * 1000 / b;
  gt = λ a b. ltb b a;
  exp_neg = λ a. 1000 - a;
  log1p = λ a. a;
}

abbrev days : ℕ → ℕ
days n = n * (24 * 3600 * 1000000000)

abbrev memory : ℕ → ℕ → Memory thousandths
memory id created = record {
  id = id;
  project_id = codes "kora";
  content = codes "The deploy runs on Friday.";
  created_at = days created;
  access_count = 0;
  decay_score = 50;
}

abbrev stored : List (Memory thousandths)
stored = memory 1 10 ∷ memory 2 30 ∷ memory 3 20 ∷ []

-- The clock stands at day 50, and the score of memory 2 cannot be written.
abbrev repo : Repo thousandths ℕ (Unit {0})
repo = record {
  query_memories = λ w filter. (w, ok stored);
  create_edge = λ w e. (w, ok e);
  update_decay_score = λ w i x. (w, if i == 2 then failed tt else ok tt);
  delete_memory = λ w i. (w, ok tt);
  now = λ w. (w, days 50);
  new_id = λ w. (w + 1, w);
}

abbrev cfg : ConsolidationConfig thousandths
cfg = record { decay_half_life_days = 30000; stale_threshold = 100; prune_age_days = 35 }

program : Unit {0}
unfolding text_eq degraded_err failures attempted counted phase_merge phase_prune run_consolidation
    add_to_group groups_of newer supersede supersede_older merge_group new_score at_most_one rescore
    is_stale prune phase_decay after_prune after_decay after_merge
program = tt

abbrev outcome : ConsolidationResult
outcome = record {
  memories_decayed = 2;
  memories_pruned = 1;
  edges_merged = 2;
  merge_failures = 0;
  decay_failures = 1;
  prune_failures = 0;
}

run_test : run_consolidation repo (λ gs. gs) cfg 100 ≡ (102, outcome, some (degraded 1 6))
unfolding program
run_test = refl

run_consolidation-Reported_example :
    Reported repo (run_consolidation (noted repo) (λ gs. gs) cfg (100, []))
run_consolidation-Reported_example = run_consolidation-Reported repo (λ gs. gs) cfg 100

phase_merge-Drawn_example :
    All (λ e. Draws stored e.0) (phase_merge (noted repo) (λ gs. gs) (100, [])).0.1
phase_merge-Drawn_example = phase_merge-Drawn repo (λ gs. gs) (λ gs g x. x) 100 stored refl

phase_prune-Deletes_example :
    All (λ e. Deletes cfg (days 50) stored e.0) (phase_prune (noted repo) cfg (100, [])).0.1
phase_prune-Deletes_example = phase_prune-Deletes repo cfg 100 stored refl
