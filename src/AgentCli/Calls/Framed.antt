-- ===== src/AgentCli/Calls/Framed.antt =====
-- `logos_call` makes plain steps only, and always comes to an end.
use lp_0008_logos_agent_modu.Base.{Bool, not, [], ◌∷◌, ◌++◌, Text, lit}
use lp_0008_logos_agent_modu.AgentCli.World.{Output, Host, World, Line, to_stdout, to_stderr}
use lp_0008_logos_agent_modu.AgentCli.World.Frame.{
  calls, IsFrame, Within, bind-Within, pure-Within, bail-Within, print-Within, output-Within,
  with_context-Within, or_panic-Within, if-Within, Total, bind-Total, pure-Total, bail-Total,
  print-Total, output-Total, with_context-Total, or_panic-Total, if-Total,
}
use lp_0008_logos_agent_modu.AgentCli.CallExpr.{parse_call_expr}
use lp_0008_logos_agent_modu.AgentCli.Calls.{
  exit_message, response_message, is_error_response, print_some, judge, forward, logos_call,
}

module _ {host : Host} {R : World → World → Type 0} (fr : IsFrame host R) where
  print_some-Within : (stream : Text → Line) (s : Text) → Within R (print_some stream s)
  print_some-Within stream [] = pure-Within fr tt
  print_some-Within stream (c ∷ s) = print-Within fr (stream (c ∷ s))

  forward-Within : (o : Output) → Within R (forward o)
  forward-Within o =
      bind-Within fr (print_some-Within to_stdout o.stdout)
        (λ _. print_some-Within to_stderr o.stderr)

  judge-Within : (o : Output) (expr name : Text) → Within R (judge o expr name)
  unfolding judge
  judge-Within o expr name =
      if-Within fr (not o.success) (bail-Within fr Text _) (
        if-Within fr (is_error_response o.stdout) (bail-Within fr Text _) (pure-Within fr o.stdout))

  pub logos_call-Within :
      (logoscore name expr : Text) (quiet : Bool)
      → Within R (logos_call host logoscore name expr quiet)
  unfolding logos_call
  logos_call-Within logoscore name expr quiet =
      bind-Within fr (or_panic-Within fr (parse_call_expr expr)) λ call.
        bind-Within fr (output-Within fr {bin = logoscore} (calls name call.0 call.1)) λ answer.
          bind-Within fr
            (with_context-Within fr answer (lit "failed to run logoscore: " ++ logoscore))
            λ o.
              bind-Within fr (if-Within fr quiet (pure-Within fr tt) (forward-Within o))
                λ _. judge-Within o expr name

print_some-Total : (stream : Text → Line) (s : Text) → Total (print_some stream s)
print_some-Total stream [] = pure-Total tt
print_some-Total stream (c ∷ s) = print-Total (stream (c ∷ s))

pub logos_call-Total :
    (host : Host) (logoscore name expr : Text) (quiet : Bool)
    → Total (logos_call host logoscore name expr quiet)
unfolding logos_call
logos_call-Total host logoscore name expr quiet =
    bind-Total (or_panic-Total (parse_call_expr expr)) λ call.
      bind-Total (output-Total host (logoscore ∷ lit "call" ∷ name ∷ call.0 ∷ call.1)) λ answer.
        bind-Total (with_context-Total answer (lit "failed to run logoscore: " ++ logoscore)) λ o.
          bind-Total
            (if-Total quiet (pure-Total tt) (
              bind-Total (print_some-Total to_stdout o.stdout)
                (λ _. print_some-Total to_stderr o.stderr)))
            λ _. if-Total (not o.success) (bail-Total Text (exit_message o expr name)) (
              if-Total (is_error_response o.stdout) (bail-Total Text (response_message o expr name))
                (pure-Total o.stdout))
