-- ===== src/AgentCli/Tests/Actions.antt =====
-- The theorems on the commands of agent-cli at concrete data.
use lp_0008_logos_agent_modu.Base.{◌≡◌, refl, true, List, [], ◌∷◌, ◌++◌, map, arith, ok, Text, lit}
use lp_0008_logos_agent_modu.AgentCli.World.{CommandLine, Line, to_stderr, done}
use lp_0008_logos_agent_modu.Std.Strings.{contains}
use lp_0008_logos_agent_modu.AgentCli.JsonStr.{json_str}
use lp_0008_logos_agent_modu.AgentCli.CallExpr.{parse_call_expr-meta_status}
use lp_0008_logos_agent_modu.AgentCli.Calls.{logos_call}
use lp_0008_logos_agent_modu.AgentCli.Calls.Outcomes.{call_outcome, logos_call_lem}
use lp_0008_logos_agent_modu.AgentCli.Wait.{wait_for_daemon}
use lp_0008_logos_agent_modu.AgentCli.Wait.Poll.{Ended}
use lp_0008_logos_agent_modu.AgentCli.Wait.Guarantees.{LastAnswer, IsGood, wait_for_daemon_lem}
use lp_0008_logos_agent_modu.AgentCli.Modules.{load_all_modules, directory_names}
use lp_0008_logos_agent_modu.AgentCli.Modules.Order.{
  agent_last, load_commands, load_all_modules_lem,
}
use lp_0008_logos_agent_modu.AgentCli.Commands.{up, pairs_of, cmd_configure, cmd_up, run, main, Cli}
use lp_0008_logos_agent_modu.AgentCli.Commands.Configure.{set_command, RanFirst, cmd_configure-ran}
use lp_0008_logos_agent_modu.AgentCli.Commands.Exit.{Reports, main-Reports, fund_cli, main_leaks}
use lp_0008_logos_agent_modu.AgentCli.Commands.Up.{LeavesOne, cmd_up-LeavesOne}
use lp_0008_logos_agent_modu.AgentCli.Tests.{
  running, refusing, entries, host, start, logoscore, configure_args, up_args,
}

logos_call_lem_example :
    let cmd : CommandLine = logoscore ∷ lit "call" ∷ lit "agent_module" ∷ lit "meta_status" ∷ [] in
    let r =
      logos_call (host refusing) logoscore (lit "agent_module") (lit "meta_status()") true start in
    (r.1.ran ≡ start.ran ++ (cmd ∷ []))
    × (r.0 ≡ call_outcome logoscore (lit "agent_module") (lit "meta_status()") (ok refusing))
logos_call_lem_example =
    logos_call_lem (host refusing) logoscore (lit "agent_module") (lit "meta_status()") true start
      parse_call_expr-meta_status

wait_for_daemon_lem_example :
    Ended
      (LastAnswer
        (host refusing)
        (logoscore ∷ lit "call" ∷ lit "agent_module" ∷ lit "meta_status" ∷ [])
        IsGood)
      60_000
      (lit "daemon did not become ready within 60s")
      0
      (wait_for_daemon (host refusing) logoscore start)
wait_for_daemon_lem_example = wait_for_daemon_lem (host refusing) logoscore start

load_all_modules_lem_example :
    ((load_all_modules (host running) logoscore (lit "mods") start).0 ≡ done tt)
    × ((load_all_modules (host running) logoscore (lit "mods") start).1.ran
        ≡ start.ran ++ load_commands logoscore (agent_last (directory_names entries)))
load_all_modules_lem_example =
    load_all_modules_lem (host running) logoscore (λ ran cmd p. (running, refl)) (lit "mods") start
      refl

cmd_configure-ran_example :
    RanFirst
      (host running)
      logoscore
      []
      (map (set_command logoscore) (pairs_of configure_args))
      (cmd_configure (host running) logoscore configure_args start)
cmd_configure-ran_example =
    cmd_configure-ran (host running) logoscore configure_args start refl (omega arith, omega arith)
      (omega arith, omega arith) (omega arith, omega arith) (omega arith, omega arith)

cmd_up-LeavesOne_example : LeavesOne start (cmd_up (host running) logoscore up_args start)
cmd_up-LeavesOne_example = cmd_up-LeavesOne (host running) logoscore up_args start

abbrev up_cli : Cli
up_cli = record { logoscore = logoscore; command = up up_args }

main-Reports_example :
    Reports (run (host refusing) up_cli start) (main (host refusing) up_cli start)
main-Reports_example = main-Reports (host refusing) up_cli start

abbrev fund_cli_pw : Cli
fund_cli_pw = fund_cli logoscore (lit "pw") (lit "7") (lit "mods")

main_leaks_example :
    (said : Text) × (before : List Line) × ((main (host refusing) fund_cli_pw start).0 ≡ 1)
    × ((main (host refusing) fund_cli_pw start).1.printed ≡ before ++ (to_stderr said ∷ []))
    × (contains (json_str (lit "pw")) said ≡ true)
main_leaks_example =
    main_leaks (host refusing) logoscore (lit "pw") (lit "7") (lit "mods") start refl
      (omega arith, omega arith) (omega arith, omega arith) refl refl
