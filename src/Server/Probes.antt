-- ===== src/Server/Probes.antt =====
-- The Kubernetes probes (internal/server/probes.go). The answer of the database to a ping is an
-- argument of the request: reachable, in error, or silent until the deadline of the handler.
pub mod Lifecycle
use context.Prelude.{List, [], ◌∷◌, Bool, true, false, if◌then◌else◌}
use context.Text.{Text, codes}

pub record Probes : Type 0 where
  pub started : Bool
  pub draining : Bool

pub data Ping : Type 0 where
  reachable unreachable timed_out : Ping

-- The status is 200 or 503.
pub data Response : Type 0 where
  ok_with : Text → Response
  unavailable : Text → Response

abbrev pub new_probes : Probes
new_probes = record { started = false; draining = false }

unfoldable pub mark_started : Probes → Probes
mark_started p = record p { started = true }

unfoldable pub mark_draining : Probes → Probes
mark_draining p = record p { draining = true }

unfoldable pub live : Probes → Response
live p = ok_with (codes "ok")

unfoldable pub startup : Probes → Response
startup p = if p.started then ok_with (codes "started") else unavailable (codes "starting")

unfoldable pub answer_ping : Ping → Response
answer_ping reachable = ok_with (codes "ready")
answer_ping timed_out = unavailable (codes "database did not respond within 1s")
answer_ping unreachable = unavailable (codes "database unreachable")

unfoldable pub ready : Probes → Ping → Response
unfolding answer_ping
ready p ping =
    if p.started
    then (if p.draining then unavailable (codes "draining") else answer_ping ping)
    else unavailable (codes "starting")

-- What the process does to the probes, and what is asked of them.
pub data Step : Type 0 where
  start : Step
  drain : Step
  ask_live : Step
  ask_startup : Step
  ask_ready : Ping → Step

unfoldable pub step : Probes → Step → Probes
unfolding mark_started mark_draining
step p start = mark_started p
step p drain = mark_draining p
step p ask_live = p
step p ask_startup = p
step p (ask_ready ping) = p

unfoldable pub run : Probes → List Step → Probes
unfolding step
run p [] = p
run p (s ∷ steps) = run (step p s) steps
