-- ===== src/AgentCli/Commands/Secrets.antt =====
-- Where the passphrase of `agent fund` ends up.
use mathlib.Core.Path.{subst}
use lp_0008_logos_agent_modu.Base.{
  ◌≡◌, ◌∙◌, true, false, some, [], ◌∷◌, ◌++◌, append_assoc, arith, ok, Text, lit,
}
use lp_0008_logos_agent_modu.AgentCli.World.{Output, CommandLine, Host, World, failed}
use lp_0008_logos_agent_modu.AgentCli.JsonStr.{json_str}
use lp_0008_logos_agent_modu.AgentCli.CallExpr.{rewrap, call_expr, fund_call_expr}
use lp_0008_logos_agent_modu.AgentCli.CallExpr.Plain.{Plain, parse-call_expr-Plain}
use lp_0008_logos_agent_modu.AgentCli.Calls.{exit_message}
use lp_0008_logos_agent_modu.AgentCli.Calls.Outcomes.{logos_call_lem}
use lp_0008_logos_agent_modu.Std.Strings.{contains, contains-append}
use lp_0008_logos_agent_modu.AgentCli.Commands.Configure.{continue_failed}
use lp_0008_logos_agent_modu.AgentCli.Commands.{FundArgs, announce_fund, cmd_fund}

-- The command of `agent fund`.
abbrev pub fund_command : Text → Text → Text → CommandLine
fund_command logoscore passphrase amount =
    logoscore
    ∷ lit "call"
    ∷ lit "lez_wallet_module"
    ∷ lit "wallet_fund"
    ∷ rewrap passphrase
    ∷ rewrap amount
    ∷ []

-- The error message quotes the call expression.
exit_message-contains :
    (o : Output) (m a b name : Text)
    → contains (json_str a) (exit_message o (call_expr m a b) name) ≡ true
unfolding exit_message call_expr
exit_message-contains o m a b name =
    subst (λ s. contains (json_str a) s ≡ true) (simp append_assoc)
      (contains-append (json_str a)
        (lit "logoscore exited with status "
          ++ (o.status ++ (lit " for expr `" ++ (m ++ (b'(' ∷ [])))))
        (b','
          ∷ b' '
          ∷ (json_str b
              ++ (b')' ∷ (lit "` on module `" ++ (name ++ (lit "`\nstderr: " ++ o.stderr)))))))

module _ (host : Host) (logoscore passphrase amount dir : Text) where
  abbrev fund_args : FundArgs
  fund_args = record { amount = amount; passphrase = some passphrase; modules_dir = dir }

  -- If `logoscore` exits with a failure, the error of `agent fund`, which `main` prints, holds
  -- the passphrase as a JSON literal. The passphrase and the amount hold no comma and no control
  -- character.
  pub cmd_fund_leaks :
      (w : World) {real_dir : Text} {o : Output}
      → host.canonicalize dir ≡ ok real_dir
      → Plain passphrase
      → Plain amount
      → host.run w.ran (fund_command logoscore passphrase amount) ≡ ok o
      → o.success ≡ false
      → (message : Text) × ((cmd_fund host logoscore fund_args w).0 ≡ failed (message ∷ []))
        × (contains (json_str passphrase) message ≡ true)
  unfolding cmd_fund announce_fund fund_call_expr
  cmd_fund_leaks w {o} hd pp pa hr hf =
      let expr = call_expr (lit "wallet_fund") passphrase amount in
      let message = exit_message o expr (lit "lez_wallet_module") in
      let call =
        logos_call_lem host logoscore (lit "lez_wallet_module") expr false
          (announce_fund amount w).1
          (parse-call_expr-Plain (lit "wallet_fund") passphrase amount (omega arith) (omega arith)
            pp pa) in
      (
        message,
        rw hd (continue_failed _ _ (message ∷ []) (call.1 ∙ rw hr (rw hf))),
        exit_message-contains o (lit "wallet_fund") passphrase amount (lit "lez_wallet_module"),
      )
