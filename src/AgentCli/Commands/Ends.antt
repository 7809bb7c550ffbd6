-- ===== src/AgentCli/Commands/Ends.antt =====
-- No subcommand runs out of the fuel of its polling loops.
use lp_0008_logos_agent_modu.Base.{
  ℕ, Bool, true, false, not, Option, none, some, List, [], ◌∷◌, ◌++◌, Text, lit,
}
use lp_0008_logos_agent_modu.AgentCli.World.{Host, World, to_stdout, Act, ◌>>=◌, ◌>>◌, println}
use lp_0008_logos_agent_modu.AgentCli.World.Frame.{
  Returns, Total, bind-Total, then-Total, pure-Total, bail-Total, print-Total, spawn-Total,
  with_context-Total, if-Total,
}
use lp_0008_logos_agent_modu.AgentCli.CallExpr.{call_expr, fund_call_expr}
use lp_0008_logos_agent_modu.AgentCli.Calls.{logos_call}
use lp_0008_logos_agent_modu.AgentCli.Calls.Framed.{logos_call-Total}
use lp_0008_logos_agent_modu.AgentCli.Modules.Framed.{load_all_modules-Total}
use lp_0008_logos_agent_modu.AgentCli.Wait.Guarantees.{
  wait_for_capability-Total, wait_for_daemon-Total,
}
use lp_0008_logos_agent_modu.AgentCli.Commands.{
  DeployArgs, ConfigureArgs, FundArgs, StatusArgs, UpArgs, Cmd, deploy, configure, fund, status, up,
  Cli, forget, unwrap_or_empty, not_found, wait, wait_for_child, spawn_daemon, leave_or_wait,
  bring_up, cmd_deploy, configure_pair, configure_pairs, pairs_of, cmd_configure, announce_fund,
  cmd_fund, cmd_status, fund_if_given, cmd_up, run,
}

module _ (host : Host) (logoscore : Text) where
  bring_up-Total : (dir : Text) (pid : ℕ) → Total (bring_up host logoscore dir pid)
  unfolding bring_up
  bring_up-Total dir pid = then-Total _ _ (print-Total _) (
      then-Total _ _ (wait_for_capability-Total host logoscore) (
        then-Total _ _ (print-Total _) (
          then-Total _ _ (print-Total _) (
            then-Total _ _ (load_all_modules-Total host logoscore dir) (
              then-Total _ _ (print-Total _) (
                then-Total _ _ (print-Total _)
                  (then-Total _ _ (wait_for_daemon-Total host logoscore) (print-Total _))))))))

  wait-Total : (pid : ℕ) → Total (wait host pid)
  wait-Total pid = record { ends = λ w. tt }

  forget-Total : (pid : ℕ) → Total (forget pid)
  forget-Total pid = record { ends = λ w. tt }

  wait_for_child-Total : (pid : ℕ) → Total (wait_for_child host pid)
  unfolding wait_for_child
  wait_for_child-Total pid = bind-Total (wait-Total pid) λ answer.
      bind-Total (with_context-Total answer (lit "failed to wait for daemon process")) λ o.
        if-Total (not o.success)
          (bail-Total (Unit {0}) (lit "daemon exited with status " ++ o.status)) (pure-Total tt)

  leave_or_wait-Total : (pid : ℕ) (detach : Bool) → Total (leave_or_wait host pid detach)
  unfolding leave_or_wait
  leave_or_wait-Total pid true = then-Total _ _ (print-Total _) (forget-Total pid)
  leave_or_wait-Total pid false = then-Total _ _ (print-Total _) (wait_for_child-Total pid)

  spawn_daemon-Total : (dir : Text) → Total (spawn_daemon host logoscore dir)
  unfolding spawn_daemon
  spawn_daemon-Total dir =
      bind-Total (spawn-Total host (logoscore ∷ lit "-D" ∷ lit "-m" ∷ dir ∷ [])) (λ answer.
        with_context-Total answer (lit "failed to spawn logoscore daemon: " ++ logoscore))

  deploy_in-Total :
      (dir : Text) (detach : Bool)
      → Total (
          spawn_daemon host logoscore dir >>= λ pid.
          bring_up host logoscore dir pid >> leave_or_wait host pid detach)
  deploy_in-Total dir detach =
      bind-Total (spawn_daemon-Total dir)
        (λ pid. then-Total _ _ (bring_up-Total dir pid) (leave_or_wait-Total pid detach))

  cmd_deploy-Total : (args : DeployArgs) → Total (cmd_deploy host logoscore args)
  unfolding cmd_deploy
  cmd_deploy-Total args =
      bind-Total
        (with_context-Total (host.canonicalize args.modules_dir) (not_found args.modules_dir))
        (λ dir.
          then-Total _ _
            (print-Total (
              to_stdout
                (lit "[agent-cli] Starting Logos Core daemon (modules: " ++ (dir ++ lit ") …"))))
            (deploy_in-Total dir args.detach))

  configure_pair-Total : (key value : Text) → Total (configure_pair host logoscore key value)
  unfolding configure_pair
  configure_pair-Total key value = then-Total _ _ (print-Total _) (
      bind-Total
        (logos_call-Total host logoscore (lit "agent_module")
          (call_expr (lit "meta_configure") key value) false)
        (λ _. pure-Total tt))

  configure_pairs-Total :
      (pairs : List (Text × Text)) → Total (configure_pairs host logoscore pairs)
  unfolding configure_pairs
  configure_pairs-Total [] = pure-Total tt
  configure_pairs-Total ((key, value) ∷ pairs) =
      then-Total _ _ (configure_pair-Total key value) (configure_pairs-Total pairs)

  cmd_configure-Total : (args : ConfigureArgs) → Total (cmd_configure host logoscore args)
  unfolding cmd_configure
  cmd_configure-Total args =
      bind-Total
        (with_context-Total (host.canonicalize args.modules_dir) (not_found args.modules_dir))
        (λ dir.
          then-Total (configure_pairs host logoscore (pairs_of args))
            (println (lit "[agent-cli] Configuration complete."))
            (configure_pairs-Total (pairs_of args)) (print-Total _))

  announce_fund-Total : (amount : Text) → Total (announce_fund amount)
  unfolding announce_fund
  announce_fund-Total amount =
      then-Total _ _ (print-Total _) (then-Total _ _ (print-Total _) (print-Total _))

  fund_call-Total :
      (expr : Text)
      → Total (
          logos_call host logoscore (lit "lez_wallet_module") expr false >>= λ _.
          println (lit "[agent-cli] Fund call submitted."))
  fund_call-Total expr =
      bind-Total (logos_call-Total host logoscore (lit "lez_wallet_module") expr false)
        (λ _. print-Total _)

  cmd_fund-Total : (args : FundArgs) → Total (cmd_fund host logoscore args)
  unfolding cmd_fund
  cmd_fund-Total args =
      bind-Total
        (with_context-Total (host.canonicalize args.modules_dir) (not_found args.modules_dir))
        (λ dir.
          then-Total _ _ (announce_fund-Total args.amount)
            (fund_call-Total (fund_call_expr (unwrap_or_empty args.passphrase) args.amount)))

  cmd_status-Total : (args : StatusArgs) → Total (cmd_status host logoscore args)
  unfolding cmd_status
  cmd_status-Total args =
      bind-Total
        (with_context-Total (host.canonicalize args.modules_dir) (not_found args.modules_dir))
        (λ dir.
          then-Total _ _ (print-Total (to_stdout (lit "[agent-cli] Fetching agent status …"))) (
            bind-Total
              (logos_call-Total host logoscore (lit "agent_module") (lit "meta_status()") false)
              (λ answer. print-Total (to_stdout answer))))

  fund_if_given-Total :
      (args : UpArgs) (amount : Option Text) → Total (fund_if_given host logoscore args amount)
  unfolding fund_if_given
  fund_if_given-Total args none = pure-Total tt
  fund_if_given-Total args (some amount) = cmd_fund-Total _

  cmd_up-Total : (args : UpArgs) → Total (cmd_up host logoscore args)
  unfolding cmd_up
  cmd_up-Total args = then-Total _ _ (print-Total _) (
      then-Total _ _ (cmd_deploy-Total _) (
        then-Total _ _ (cmd_configure-Total _) (
          then-Total _ _ (fund_if_given-Total args args.fund) (
            then-Total _ _
              (if-Total (not args.detach) (then-Total _ _ (print-Total _) (print-Total _))
                (pure-Total tt))
              (print-Total _)))))

-- Every subcommand comes to an end, if the commands that it runs do: no polling loop needs more
-- rounds than its timeout allows.
pub run-Returns : (host : Host) (cli : Cli) (w : World) → Returns (run host cli w)
unfolding run
run-Returns host cli w = of_command cli.command
  where
    of_command :
        (c : Cmd)
        → Returns (
            (elim c as (λ _. Act (Unit {0})) [
              | deploy args ↦ cmd_deploy host cli.logoscore args
              | configure args ↦ cmd_configure host cli.logoscore args
              | fund args ↦ cmd_fund host cli.logoscore args
              | status args ↦ cmd_status host cli.logoscore args
              | up args ↦ cmd_up host cli.logoscore args
            ])
              w)
    of_command (deploy args) = (cmd_deploy-Total host cli.logoscore args).ends w
    of_command (configure args) = (cmd_configure-Total host cli.logoscore args).ends w
    of_command (fund args) = (cmd_fund-Total host cli.logoscore args).ends w
    of_command (status args) = (cmd_status-Total host cli.logoscore args).ends w
    of_command (up args) = (cmd_up-Total host cli.logoscore args).ends w
