-- ===== src/Cmd/Runner/Tests.antt =====
-- A process of pkg/cmd that leads twice, and whose `run` fails.
use kube_trigger.Base.{ℕ, true, false, none, some, [], ◌∷◌}
use kube_trigger.Cmd.Runner.{of_run, leader_election_lost, Runner}

abbrev leading : Runner ℕ
leading = record {
  once = true;
  senders = [];
  running = 1;
  result = none;
  started = 1;
  returned = [];
  lost = false;
}

-- Leadership is lost, then `run` fails; `runCli` hears of the loss.
abbrev failed : Runner ℕ
failed = record leading {
  senders = leader_election_lost ∷ of_run 7 ∷ [];
  running = 0;
  returned = 7 ∷ [];
  lost = true;
}

abbrev over : Runner ℕ
over = record failed { senders = of_run 7 ∷ []; result = some (some leader_election_lost) }
