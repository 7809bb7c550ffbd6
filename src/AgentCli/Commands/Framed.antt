-- ===== src/AgentCli/Commands/Framed.antt =====
-- The subcommands, but for the end of a deployment, make plain steps only.
use lp_0008_logos_agent_modu.Base.{ℕ, false, Option, none, some, List, [], ◌∷◌, ◌++◌, Text, lit}
use lp_0008_logos_agent_modu.AgentCli.World.{CommandLine, Host, World, spawn}
use lp_0008_logos_agent_modu.AgentCli.World.Frame.{
  IsFrame, Within, bind-Within, then-Within, pure-Within, print-Within, spawn-Within,
  with_context-Within,
}
use lp_0008_logos_agent_modu.AgentCli.CallExpr.{call_expr, fund_call_expr}
use lp_0008_logos_agent_modu.AgentCli.Calls.Framed.{logos_call-Within}
use lp_0008_logos_agent_modu.AgentCli.Modules.Framed.{load_all_modules-Within}
use lp_0008_logos_agent_modu.AgentCli.Wait.Guarantees.{
  wait_for_capability-Within, wait_for_daemon-Within,
}
use lp_0008_logos_agent_modu.AgentCli.Commands.{
  ConfigureArgs, FundArgs, UpArgs, unwrap_or_empty, not_found, spawn_daemon, bring_up,
  configure_pair, configure_pairs, pairs_of, cmd_configure, announce_fund, cmd_fund, fund_if_given,
  up_hints,
}

module _ {host : Host} {R : World → World → Type 0} (fr : IsFrame host R) (logoscore : Text) where
  pub spawn_daemon-Within :
      (dir : Text)
      → ((cmd : CommandLine) (w : World) → R w (spawn host cmd w).1)
      → Within R (spawn_daemon host logoscore dir)
  unfolding spawn_daemon
  spawn_daemon-Within dir h =
      bind-Within fr (spawn-Within fr (logoscore ∷ lit "-D" ∷ lit "-m" ∷ dir ∷ []) (h _)) (λ answer.
        with_context-Within fr answer (lit "failed to spawn logoscore daemon: " ++ logoscore))

  pub bring_up-Within : (dir : Text) (pid : ℕ) → Within R (bring_up host logoscore dir pid)
  unfolding bring_up
  bring_up-Within dir pid = then-Within fr _ _ (print-Within fr _) (
      then-Within fr _ _ (wait_for_capability-Within host logoscore fr) (
        then-Within fr _ _ (print-Within fr _) (
          then-Within fr _ _ (print-Within fr _) (
            then-Within fr _ _ (load_all_modules-Within fr logoscore dir) (
              then-Within fr _ _ (print-Within fr _) (
                then-Within fr _ _ (print-Within fr _) (
                  then-Within fr _ _ (wait_for_daemon-Within host logoscore fr)
                    (print-Within fr _))))))))

  configure_pair-Within : (key value : Text) → Within R (configure_pair host logoscore key value)
  unfolding configure_pair
  configure_pair-Within key value = bind-Within fr (print-Within fr _) λ _.
      bind-Within fr
        (logos_call-Within fr logoscore (lit "agent_module")
          (call_expr (lit "meta_configure") key value) false)
        (λ _. pure-Within fr tt)

  configure_pairs-Within :
      (pairs : List (Text × Text)) → Within R (configure_pairs host logoscore pairs)
  unfolding configure_pairs
  configure_pairs-Within [] = pure-Within fr tt
  configure_pairs-Within ((key, value) ∷ pairs) =
      bind-Within fr (configure_pair-Within key value) (λ _. configure_pairs-Within pairs)

  pub cmd_configure-Within : (args : ConfigureArgs) → Within R (cmd_configure host logoscore args)
  unfolding cmd_configure
  cmd_configure-Within args =
      bind-Within fr
        (with_context-Within fr (host.canonicalize args.modules_dir) (not_found args.modules_dir))
        λ _. bind-Within fr (configure_pairs-Within (pairs_of args)) (λ _. print-Within fr _)

  announce_fund-Within : (amount : Text) → Within R (announce_fund amount)
  unfolding announce_fund
  announce_fund-Within amount =
      then-Within fr _ _ (print-Within fr _)
        (then-Within fr _ _ (print-Within fr _) (print-Within fr _))

  pub cmd_fund-Within : (args : FundArgs) → Within R (cmd_fund host logoscore args)
  unfolding cmd_fund
  cmd_fund-Within args =
      bind-Within fr
        (with_context-Within fr (host.canonicalize args.modules_dir) (not_found args.modules_dir))
        λ _. bind-Within fr (announce_fund-Within args.amount) λ _.
          bind-Within fr
            (logos_call-Within fr logoscore (lit "lez_wallet_module")
              (fund_call_expr (unwrap_or_empty args.passphrase) args.amount) false)
            (λ _. print-Within fr _)

  pub fund_if_given-Within :
      (args : UpArgs) (amount : Option Text) → Within R (fund_if_given host logoscore args amount)
  unfolding fund_if_given
  fund_if_given-Within args none = pure-Within fr tt
  fund_if_given-Within args (some amount) = cmd_fund-Within _

  pub up_hints-Within : Within R up_hints
  up_hints-Within = then-Within fr _ _ (print-Within fr _) (print-Within fr _)
