-- ===== src/AgentCli/Tests.antt =====
-- Runs of agent-cli against a small host, and the theorems at concrete data.
mod Texts
mod Actions
mod Liveness
use lp_0008_logos_agent_modu.Base.{◌+◌, true, false, none, some, List, [], ◌∷◌, ◌++◌, ok, Text, lit}
use lp_0008_logos_agent_modu.AgentCli.World.{Output, DirEntry, Host, World}
use lp_0008_logos_agent_modu.AgentCli.Commands.{ConfigureArgs, UpArgs, run}

abbrev pub running : Output
running = record {
  success = true;
  status = lit "exit status: 0";
  stdout = lit "{\"state\":\"running\"}";
  stderr = [];
}

abbrev pub refusing : Output
refusing = record {
  success = false;
  status = lit "exit status: 1";
  stdout = [];
  stderr = lit "no such method";
}

abbrev pub folder : Text → DirEntry
folder name = record { readable = true; is_dir = some true; file_name = some name }

abbrev pub entries : List DirEntry
entries =
    folder (lit "agent_module")
    ∷ folder (lit "wallet")
    ∷ record { readable = true; is_dir = some false; file_name = some (lit "notes") }
    ∷ []

-- Every command gets the same output, and takes 10 ms.
abbrev pub host : Output → Host
host o = record {
  run = λ ran cmd. ok o;
  duration_ms = λ ran cmd. 10;
  spawn = λ ran cmd. ok 4711;
  wait = λ pid. ok o;
  canonicalize = λ dir. ok (lit "/srv/" ++ dir);
  read_dir = λ dir. ok entries;
}

abbrev pub start : World
start = record { ran = []; printed = []; now_ms = 0; spawned = []; waited = []; forgotten = [] }

abbrev pub logoscore : Text
logoscore = lit "logoscore"

abbrev pub configure_args : ConfigureArgs
configure_args = record {
  owner = lit "ab";
  per_tx_limit = lit "50";
  per_period_limit = lit "200";
  period_seconds = lit "60";
  modules_dir = lit "mods";
}

abbrev pub up_args : UpArgs
up_args = record {
  modules_dir = lit "mods";
  detach = true;
  owner = lit "ab";
  per_tx_limit = lit "50";
  per_period_limit = lit "200";
  period_seconds = lit "60";
  fund = none;
  passphrase = none;
}
