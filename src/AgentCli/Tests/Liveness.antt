-- ===== src/AgentCli/Tests/Liveness.antt =====
-- A host whose daemon needs some time, and the theorems on success at concrete data.
use lp_0008_logos_agent_modu.Base.{
  ℕ, zero, suc, ◌≤◌, ◌≡◌, refl, sym, ap, ◌∙◌, Bool, true, false, leb, List, [], ◌∷◌, ◌++◌, arith,
  Text, length, length-append, ok, lit,
}
use lp_0008_logos_agent_modu.Std.Strings.{contains}
use lp_0008_logos_agent_modu.Std.Trim.{trim_start_matches}
use lp_0008_logos_agent_modu.AgentCli.World.{Output, CommandLine, Host, done}
use lp_0008_logos_agent_modu.AgentCli.Calls.{is_error_response}
use lp_0008_logos_agent_modu.AgentCli.Wait.{says_running}
use lp_0008_logos_agent_modu.AgentCli.Wait.Guarantees.{accepted, meta_status_call}
use lp_0008_logos_agent_modu.AgentCli.Commands.{pairs_of, unwrap_or_empty, cmd_up}
use lp_0008_logos_agent_modu.AgentCli.Commands.Diagram.{Phase, Walk, ReadyFor, final}
use lp_0008_logos_agent_modu.AgentCli.Commands.Diagram.Up.{cmd_up-Walk}
use lp_0008_logos_agent_modu.AgentCli.Commands.Success.{IsUp, Serves, Loaded, spawn_command}
use lp_0008_logos_agent_modu.AgentCli.Commands.Configure.{set_command}
use lp_0008_logos_agent_modu.AgentCli.Wait.Liveness.{polls}
use lp_0008_logos_agent_modu.AgentCli.Modules.{directory_names}
use lp_0008_logos_agent_modu.AgentCli.Modules.Order.{agent_last}
use lp_0008_logos_agent_modu.AgentCli.Commands.Success.Configured.{
  Accepted, AcceptsValues, PlainValues, configure_of, cmd_up_ready,
}
use lp_0008_logos_agent_modu.AgentCli.Tests.{
  running, refusing, entries, host, start, logoscore, up_args,
}

abbrev answer : Bool → Output
answer true = running
answer false = refusing

-- It comes up after three commands.
abbrev slow_host : Host
slow_host = record (host running) { run = λ before cmd. ok (answer (leb 3 (length before))) }

running_says : says_running (ok running) ≡ true
unfolding says_running contains
running_says = refl

refusing_says : says_running (ok refusing) ≡ false
unfolding says_running contains
refusing_says = refl

running-accepted : accepted (ok running) ≡ true
unfolding is_error_response contains trim_start_matches
running-accepted = refl

says_at : (b : Bool) → says_running (ok (answer b)) ≡ b
says_at true = running_says
says_at false = refusing_says

up_at : (before : List CommandLine) → IsUp slow_host logoscore before → leb 3 (length before) ≡ true
up_at before h = sym (says_at (leb 3 (length before))) ∙ h

length-polls : (m : ℕ) → length (polls slow_host logoscore m) ≡ m
unfolding polls
length-polls zero = refl
length-polls (suc m) = length-append (polls slow_host logoscore m) _ ∙ omega (arith, length-polls m)

slow_host-IsUp : (before : List CommandLine) → 3 ≤ length before → IsUp slow_host logoscore before
slow_host-IsUp before h = rw says_at (ground arith)

good_after :
    (before : List CommandLine) (cmd : CommandLine)
    → IsUp slow_host logoscore before
    → accepted (slow_host.run before cmd) ≡ true
good_after before cmd h = ap (λ b. accepted (ok (answer b))) (up_at before h) ∙ running-accepted

slow_host-Serves : Serves slow_host logoscore 3 10 (lit "mods")
slow_host-Serves = record {
  real_dir = lit "/srv/mods";
  is_there = refl;
  entries = entries;
  lists = refl;
  runs = λ before cmd p. (answer (leb 3 (length before)), refl);
  spawns = λ before. (4711, refl);
  quick = λ before. omega arith;
  comes_up = λ before m h.
      slow_host-IsUp
        (before ++ (spawn_command logoscore (lit "/srv/mods") ∷ []) ++ polls slow_host logoscore m)
        (omega (
          arith,
          length-append (before ++ (spawn_command logoscore (lit "/srv/mods") ∷ []))
              (polls slow_host logoscore m),
          length-polls m,
        ));
  stays_up = λ before {bin} {cmd} p h.
      says_at (leb 3 (length (before ++ (cmd ∷ []))))
      ∙ ground (arith, up_at before h, length-append before (cmd ∷ []));
  answers = λ before up loaded. good_after before (meta_status_call slow_host logoscore) up;
}

plain_values : PlainValues (configure_of up_args)
plain_values = (
  (omega arith, omega arith),
  (omega arith, omega arith),
  (omega arith, omega arith),
  (omega arith, omega arith),
)

takes :
    (pair : Text × Text)
    → Accepted slow_host logoscore 3 10
        (lit "mods")
        slow_host-Serves
        (omega arith)
        (set_command logoscore pair)
takes pair before up loaded = good_after before (set_command logoscore pair) up

takes_values : AcceptsValues slow_host logoscore 3 10 up_args slow_host-Serves (omega arith)
takes_values = (
  takes (lit "owner_address", up_args.owner),
  (
    takes (lit "per_tx_limit", up_args.per_tx_limit),
    (
      takes (lit "per_period_limit", up_args.per_period_limit),
      (takes (lit "period_seconds", up_args.period_seconds), tt),
    ),
  ),
)

cmd_up_ready_example :
    let r = cmd_up slow_host logoscore up_args start in
    (r.0 ≡ done tt)
    × ((pid : ℕ) × (r.1.spawned ≡ start.spawned ++ (pid ∷ []))
        × (r.1.forgotten ≡ start.forgotten ++ (pid ∷ [])))
    × IsUp slow_host logoscore r.1.ran
    × Loaded slow_host logoscore (agent_last (directory_names slow_host-Serves.entries)) r.1.ran
cmd_up_ready_example =
    cmd_up_ready slow_host logoscore 3 10 up_args slow_host-Serves (omega arith) plain_values tt
      takes_values tt start

cmd_up-Walk_example :
    let pairs = pairs_of (configure_of up_args) in
    let passphrase = unwrap_or_empty up_args.passphrase in
    let r = cmd_up slow_host logoscore up_args start in
    (p : Phase) × Walk slow_host logoscore
      (lit "/srv/mods")
      pairs
      passphrase
      up_args.fund
      start.ran
      r.1.ran
      p
    × ReadyFor slow_host logoscore (lit "/srv/mods") pairs passphrase up_args.fund p r.1.ran
    × (r.0 ≡ done tt
        → p ≡ final slow_host logoscore (lit "/srv/mods") pairs passphrase up_args.fund)
cmd_up-Walk_example =
    cmd_up-Walk slow_host logoscore (lit "/srv/mods") up_args start refl plain_values tt
