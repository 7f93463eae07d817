-- ===== src/Tests/Server.antt =====
-- Tests of the probes.
use context.Prelude.{◌≡◌, ◌↔◌, refl, List, [], ◌∷◌, true, false}
use context.Text.{codes}
use context.Server.Probes.{
  reachable, ok_with, unavailable, new_probes, ready, Step, start, drain, ask_live, run, step,
  startup, live, mark_started, mark_draining, answer_ping,
}
use context.Server.Probes.Lifecycle.{starts, drains, ready-run_iff}

abbrev life : List Step
life = start ∷ ask_live ∷ drain ∷ start ∷ []

program : Unit {0}
unfolding ready run step startup live mark_started mark_draining answer_ping
program = tt

draining_test : ready (run new_probes life) reachable ≡ unavailable (codes "draining")
unfolding program
draining_test = refl

startup_test : startup new_probes ≡ unavailable (codes "starting")
unfolding program
startup_test = refl

ready-run_iff_example :
    (ready (run new_probes life) reachable ≡ ok_with (codes "ready"))
    ↔ ((starts life ≡ true) × (drains life ≡ false) × (reachable ≡ reachable))
ready-run_iff_example = ready-run_iff life reachable
