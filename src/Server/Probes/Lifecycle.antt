-- ===== src/Server/Probes/Lifecycle.antt =====
-- Readiness over the life of the process.
use context.Prelude.{
  ◌≡◌, ◌↔◌, refl, List, [], ◌∷◌, Bool, true, false, arith, inl, inr, Bool-cases, ◌||◌, ◌∙◌,
}
use context.Text.{codes}
use context.Server.Probes.{
  Probes, Ping, reachable, unreachable, timed_out, ok_with, new_probes, ready, answer_ping,
  mark_started, mark_draining, Step, start, drain, step, run, ask_live, ask_startup, ask_ready,
}

-- Whether initialization finishes, and whether shutdown begins, in a run.
abbrev pub starts : List Step → Bool
starts [] = false
starts (start ∷ steps) = true
starts (_ ∷ steps) = starts steps

abbrev pub drains : List Step → Bool
drains [] = false
drains (drain ∷ steps) = true
drains (_ ∷ steps) = drains steps

run-started : (p : Probes) (steps : List Step) → (run p steps).started ≡ (p.started || starts steps)
unfolding run step mark_started mark_draining
run-started p [] = ground arith
run-started p (start ∷ steps) = ground (arith, run-started (step p start) steps)
run-started p (drain ∷ steps) = run-started (step p drain) steps
run-started p (ask_live ∷ steps) = run-started p steps
run-started p (ask_startup ∷ steps) = run-started p steps
run-started p (ask_ready ping ∷ steps) = run-started p steps

run-draining :
    (p : Probes) (steps : List Step) → (run p steps).draining ≡ (p.draining || drains steps)
unfolding run step mark_started mark_draining
run-draining p [] = ground arith
run-draining p (start ∷ steps) = run-draining (step p start) steps
run-draining p (drain ∷ steps) = ground (arith, run-draining (step p drain) steps)
run-draining p (ask_live ∷ steps) = run-draining p steps
run-draining p (ask_startup ∷ steps) = run-draining p steps
run-draining p (ask_ready ping ∷ steps) = run-draining p steps

answer_ping_iff : (ping : Ping) → (answer_ping ping ≡ ok_with (codes "ready")) ↔ (ping ≡ reachable)
unfolding answer_ping
answer_ping_iff reachable = (λ h. refl, λ h. refl)
answer_ping_iff unreachable = (λ h. cc, λ h. cc)
answer_ping_iff timed_out = (λ h. cc, λ h. cc)

-- After any run of a new process the pod is ready exactly when initialization finished in it,
-- shutdown did not begin in it, whatever came after, and the database answers the ping.
pub ready-run_iff :
    (steps : List Step) (ping : Ping)
    → (ready (run new_probes steps) ping ≡ ok_with (codes "ready"))
      ↔ ((starts steps ≡ true) × (drains steps ≡ false) × (ping ≡ reachable))
unfolding ready
ready-run_iff steps ping =
    let begun = run-started new_probes steps in
    let ended = run-draining new_probes steps in
    elim (Bool-cases (starts steps)) [
      | inl s ↦ elim (Bool-cases (drains steps)) [
        | inl d ↦ rw (begun ∙ s, ended ∙ d, ready) (λ h. cc, λ (x, y, z). ground (arith, d, y))
        | inr d ↦
            rw (begun ∙ s, ended ∙ d, ready)
              (λ h. (s, d, (answer_ping_iff ping).0 h), λ (x, y, z). (answer_ping_iff ping).1 z)
      ]
      | inr s ↦ rw (begun ∙ s, ready) (λ h. cc, λ (x, y, z). ground (arith, s, x))
    ]
