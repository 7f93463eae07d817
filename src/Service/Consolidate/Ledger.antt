-- ===== src/Service/Consolidate/Ledger.antt =====
-- What the run reports against what the repository did: a repository that notes its writes.
use context.Prelude.{
  ℕ, ◌+◌, ◌*◌, ◌≤◌, ◌<◌, ◌≡◌, refl, List, [], ◌∷◌, Bool, true, false, length, none, some,
  Bool-cases, ==_iff, leb, sym, Result, ok, failed, Result-cases, inl, inr, arith, Member, here,
  there, if◌then◌else◌, ◌==◌,
}
use context.Model.Memory.{semantic}
use context.Service.Consolidate.{
  Floats, Memory, Edge, Repo, ConsolidationConfig, ConsolidationResult, merge_phase, decay_phase,
  prune_phase, degraded, degraded_err, failures, attempted, Tally, counted, loop,
}
use context.Service.Consolidate.Phases.{
  Groups, MemKey, State, supersede, supersede_older, merge_group, phase_merge, rescore, phase_decay,
  prune, phase_prune, after_prune, after_decay, after_merge, run_consolidation, no_tally, no_result,
  newer, Run, groups_of, is_stale,
}

-- A property that every round keeps holds after the loop.
pub loop_inv :
    {S A : Type 0} (I : S → Type 0) (step : S → A → S) (xs : List A)
    → ((s : S) (x : A) → Member x xs → I s → I (step s x))
    → (s : S) → I s
    → I (loop step s xs)
loop_inv I step [] f s i = i
loop_inv I step (x ∷ xs) f s i =
    loop_inv I step xs (λ t y m. f t y (there m)) (step s x) (f s x (here refl) i)

pub data Write (F : Floats) : Type 0 where
  supersedes : Edge → Write F
  rescores : ℕ → F.Float → Write F
  deletes : ℕ → Write F

-- The writes, the latest first, each with whether it succeeded.
abbrev pub Log : Floats → Type 0
Log F = List (Write F × Bool)

abbrev succeeded : {E A : Type 0} → Result E A → Bool
succeeded (ok a) = true
succeeded (failed e) = false

module _ {F : Floats} where
  abbrev pub done_in : Log F → ℕ
  done_in [] = 0
  done_in ((x, b) ∷ log) = (if b then 1 else 0) + done_in log

  abbrev pub undone_in : Log F → ℕ
  undone_in [] = 0
  undone_in ((x, b) ∷ log) = (if b then 0 else 1) + undone_in log

  in_all : (log : Log F) → done_in log + undone_in log ≡ length log
  in_all [] = omega arith
  in_all ((x, true) ∷ log) = omega (arith, in_all log)
  in_all ((x, false) ∷ log) = omega (arith, in_all log)

-- The repository with a log of its writes.
abbrev pub noted : {F : Floats} {W E : Type 0} → Repo F W E → Repo F (W × Log F) E
noted repo = record {
  query_memories = λ (w, log) filter. let (w', r) = repo.query_memories w filter in ((w', log), r);
  create_edge = λ (w, log) e.
      let (w', r) = repo.create_edge w e in ((w', (supersedes e, succeeded r) ∷ log), r);
  update_decay_score = λ (w, log) i x.
      let (w', r) = repo.update_decay_score w i x in ((w', (rescores i x, succeeded r) ∷ log), r);
  delete_memory = λ (w, log) i.
      let (w', r) = repo.delete_memory w i in ((w', (deletes i, succeeded r) ∷ log), r);
  now = λ (w, log). let (w', t) = repo.now w in ((w', log), t);
  new_id = λ (w, log). let (w', i) = repo.new_id w in ((w', log), i);
}

module _ {F : Floats} {W E : Type 0} (repo : Repo F W E) where
  -- The counts are those of the log, beside what the log had before.
  record Accounts (a b : ℕ) (s : State (noted repo)) : Type 0 where
    done : done_in s.0.1 ≡ s.1.done + a
    undone : undone_in s.0.1 ≡ s.1.undone + b

  module _ (a b : ℕ) where
    counted-Accounts :
        {A : Type 0} (r : Result E A) (w w' : W) (x : Write F) (log : Log F) (t : Tally)
        → Accounts a b ((w, log), t)
        → Accounts a b ((w', (x, succeeded r) ∷ log), counted r t)
    unfolding counted
    counted-Accounts (ok v) w w' x log t h = record {
      done = omega (arith, h.done);
      undone = omega (arith, h.undone);
    }
    counted-Accounts (failed e) w w' x log t h = record {
      done = omega (arith, h.done);
      undone = omega (arith, h.undone);
    }

    supersede_older-Accounts :
        (newest : Memory F) (s : State (noted repo)) (m : Memory F)
        → Accounts a b s
        → Accounts a b (supersede_older (noted repo) newest s m)
    unfolding supersede_older supersede
    supersede_older-Accounts newest ((w, log), t) m h = elim (Bool-cases (m.id == newest.id)) [
      | inl e ↦ rw e h
      | inr e ↦ rw e (counted-Accounts _ w _ _ log t h)
    ]

    merge_group-Accounts :
        (s : State (noted repo)) (g : MemKey × List (Memory F))
        → Accounts a b s
        → Accounts a b (merge_group (noted repo) s g)
    unfolding merge_group
    merge_group-Accounts s (k, []) h = h
    merge_group-Accounts s (k, m ∷ []) h = h
    merge_group-Accounts s (k, m ∷ n ∷ ms) h =
        loop_inv (Accounts a b) _ (m ∷ n ∷ ms)
          (λ t x y. supersede_older-Accounts (loop newer m (n ∷ ms)) t x) s h

    rescore-Accounts :
        (cfg : ConsolidationConfig F) (now : ℕ) (s : State (noted repo)) (m : Memory F)
        → Accounts a b s
        → Accounts a b (rescore (noted repo) cfg now s m)
    unfolding rescore
    rescore-Accounts cfg now ((w, log), t) m h = counted-Accounts _ w _ _ log t h

    prune-Accounts :
        (cfg : ConsolidationConfig F) (now : ℕ) (s : State (noted repo)) (m : Memory F)
        → Accounts a b s
        → Accounts a b (prune (noted repo) cfg now s m)
    unfolding prune
    prune-Accounts cfg now ((w, log), t) m h = elim (Bool-cases (is_stale cfg now m)) [
      | inl e ↦ rw e (counted-Accounts _ w _ _ log t h)
      | inr e ↦ rw e h
    ]

  -- What a phase returns, with the log that it leaves.
  abbrev Accounted : ℕ → ℕ → (W × Log F) × Result E Tally → Type 0
  Accounted a b ((w, log), failed e) = (done_in log ≡ a) × (undone_in log ≡ b)
  Accounted a b ((w, log), ok t) = Accounts a b ((w, log), t)

  start :
      (w : W) (log : Log F)
      → Accounts (done_in log) (undone_in log) ((w, log), no_tally (noted repo))
  start w log = record { done = omega arith; undone = omega arith }

  phase_merge-Accounted :
      (iterate : Groups F → Groups F) (w : W) (log : Log F)
      → Accounted (done_in log) (undone_in log) (phase_merge (noted repo) iterate (w, log))
  unfolding phase_merge
  phase_merge-Accounted iterate w log =
      elim (Result-cases
        (repo.query_memories w (record { types = semantic ∷ []; top_k = 100 })).1) [
          | inl (ms, e) ↦
              rw (e, phase_merge)
                (loop_inv (Accounts (done_in log) (undone_in log)) _ (iterate (groups_of ms))
                  (λ s x m. merge_group-Accounts _ _ s x) _ (start _ log))
          | inr (x, e) ↦ rw (e, phase_merge) (refl, refl)
        ]

  phase_decay-Accounted :
      (cfg : ConsolidationConfig F) (w : W) (log : Log F)
      → Accounted (done_in log) (undone_in log) (phase_decay (noted repo) cfg (w, log))
  unfolding phase_decay
  phase_decay-Accounted cfg w log =
      elim (Result-cases (repo.query_memories w (record { types = []; top_k = 1000 })).1) [
        | inl (ms, e) ↦
            rw (e, phase_decay)
              (loop_inv (Accounts (done_in log) (undone_in log)) _ ms
                (λ s x m. rescore-Accounts _ _ cfg _ s x) _ (start _ log))
        | inr (x, e) ↦ rw (e, phase_decay) (refl, refl)
      ]

  phase_prune-Accounted :
      (cfg : ConsolidationConfig F) (w : W) (log : Log F)
      → Accounted (done_in log) (undone_in log) (phase_prune (noted repo) cfg (w, log))
  unfolding phase_prune
  phase_prune-Accounted cfg w log =
      elim (Result-cases (repo.query_memories w (record { types = []; top_k = 1000 })).1) [
        | inl (ms, e) ↦
            rw (e, phase_prune)
              (loop_inv (Accounts (done_in log) (undone_in log)) _ ms
                (λ s x m. prune-Accounts _ _ cfg _ s x) _ (start _ log))
        | inr (x, e) ↦ rw (e, phase_prune) (refl, refl)
      ]

  abbrev Counts : Log F → ConsolidationResult → Type 0
  Counts log r = (undone_in log ≡ failures r) × (length log ≡ attempted r)

  -- The counts of the result are those of the log; the run reports success only if a tenth of the
  -- writes at most failed, and a degraded run, with these two numbers, only if more did.
  abbrev pub Reported : Run (noted repo) → Type 0
  Reported ((w, log), r, none) = Counts log r × (undone_in log * 10 ≤ length log)
  Reported ((w, log), r, some (degraded f n)) =
      Counts log r × ((f ≡ undone_in log) × (n ≡ length log) × (length log < undone_in log * 10))
  Reported ((w, log), r, some (merge_phase e)) = Counts log r
  Reported ((w, log), r, some (decay_phase e)) = Counts log r
  Reported ((w, log), r, some (prune_phase e)) = Counts log r

  judged :
      (w : W) (log : Log F) (r : ConsolidationResult)
      → Counts log r
      → Reported ((w, log), r, degraded_err r)
  unfolding degraded_err
  judged w log r h = elim (Bool-cases (attempted r == 0)) [
    | inl z ↦
        rw z (h, let zero = ==_iff (attempted r) 0 in omega (arith, in_all log, zero.0 z, h.1))
    | inr z ↦ elim (Bool-cases (leb (failures r * 10) (attempted r))) [
      | inl few ↦ rw (z, few) (h, ground (arith, few, h.0, h.1))
      | inr many ↦ rw (z, many) (h, (sym h.0, sym h.1, ground (arith, many, h.0, h.1)))
    ]
  ]

  after_prune-Reported :
      (log : Log F) (r : ConsolidationResult) (p : (W × Log F) × Result E Tally)
      → Counts log r
      → (r.memories_pruned ≡ 0) × (r.prune_failures ≡ 0)
      → Accounted (done_in log) (undone_in log) p
      → Reported (after_prune (noted repo) r p)
  unfolding after_prune failures attempted
  after_prune-Reported log r ((w, l), failed e) h z a = omega (arith, in_all log, in_all l, a, h)
  after_prune-Reported log r ((w, l), ok t) h z a =
      judged w l (after_prune (noted repo) r ((w, l), ok t)).1
        (omega (arith, in_all log, in_all l, a.done, a.undone, h, z))

  after_decay-Reported :
      (cfg : ConsolidationConfig F) (log : Log F) (r : ConsolidationResult)
      (p : (W × Log F) × Result E Tally)
      → Counts log r
      → (r.memories_decayed ≡ 0)
        × (r.decay_failures ≡ 0)
        × (r.memories_pruned ≡ 0)
        × (r.prune_failures ≡ 0)
      → Accounted (done_in log) (undone_in log) p
      → Reported (after_decay (noted repo) cfg r p)
  unfolding after_decay failures attempted
  after_decay-Reported cfg log r ((w, l), failed e) h z a =
      omega (arith, in_all log, in_all l, a, h)
  after_decay-Reported cfg log r ((w, l), ok t) h (z, y, x, v) a =
      after_prune-Reported l _ _ (omega (arith, in_all log, in_all l, a.done, a.undone, h, z, y))
        (x, v) (phase_prune-Accounted cfg w l)

  -- Whatever the repository does, the result counts as many failures as writes that failed, and as
  -- many attempts as writes; a run without error is one in which at most a tenth of the writes
  -- failed, and a run reports itself as degraded, with the two numbers, only if more did.
  pub run_consolidation-Reported :
      (iterate : Groups F → Groups F) (cfg : ConsolidationConfig F) (w : W)
      → Reported (run_consolidation (noted repo) iterate cfg (w, []))
  unfolding run_consolidation after_merge failures attempted
  run_consolidation-Reported iterate cfg w =
      merged (phase_merge (noted repo) iterate (w, [])) (phase_merge-Accounted iterate w [])
    where
      merged :
          (p : (W × Log F) × Result E Tally)
          → Accounted 0 0 p
          → Reported (after_merge (noted repo) cfg (no_result (noted repo)) p)
      merged ((w, l), failed e) a = omega (arith, in_all l, a)
      merged ((w, l), ok t) a =
          after_decay-Reported cfg l _ _ (omega (arith, in_all l, a.done, a.undone))
            (refl, refl, refl, refl) (phase_decay-Accounted cfg w l)
