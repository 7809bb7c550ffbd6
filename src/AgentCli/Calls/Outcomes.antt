-- ===== src/AgentCli/Calls/Outcomes.antt =====
-- What `logos_call` runs and returns, on every branch.
use lp_0008_logos_agent_modu.Base.{
  ◌≡◌, Bool, not, ◌&&◌, some, List, [], ◌∷◌, ◌++◌, arith, if◌then◌else◌, Result, ok, err, Text, lit,
}
use lp_0008_logos_agent_modu.AgentCli.World.{
  Output, CommandLine, Host, World, Outcome, done, failed,
}
use lp_0008_logos_agent_modu.AgentCli.CallExpr.{parse_call_expr}
use lp_0008_logos_agent_modu.AgentCli.Calls.{
  is_error_response, exit_message, response_message, judge, logos_call,
}

-- The result of a call, from the answer of the operating system.
abbrev pub call_outcome : Text → Text → Text → Result Output Text → Outcome Text
call_outcome logoscore name expr (err cause) =
    failed ((lit "failed to run logoscore: " ++ logoscore) ∷ cause ∷ [])
call_outcome logoscore name expr (ok o) =
    if o.success && not (is_error_response o.stdout)
    then done o.stdout
    else failed
        ((if o.success then response_message o expr name else exit_message o expr name) ∷ [])

module _ (host : Host) (logoscore name expr : Text) (quiet : Bool) where
  -- If the expression is read, `logos_call` runs exactly one command, with the method and the
  -- arguments that were read. It succeeds with the standard output if the command could be run,
  -- exited with success and gave no error response, and it fails with the message of the first
  -- of these that does not hold.
  pub logos_call_lem :
      {method : Text} {args : List Text} (w : World)
      → parse_call_expr expr ≡ some (method, args)
      → let cmd : CommandLine = logoscore ∷ lit "call" ∷ name ∷ method ∷ args in
        let r = logos_call host logoscore name expr quiet w in
        (r.1.ran ≡ w.ran ++ (cmd ∷ []))
        × (r.0 ≡ call_outcome logoscore name expr (host.run w.ran cmd))
  unfolding logos_call judge
  logos_call_lem {method} {args} w h = ground arith
