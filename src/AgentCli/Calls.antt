-- ===== src/AgentCli/Calls.antt =====
-- `logos_call` of agent-cli/src/main.rs, with which all module calls are made.
pub mod Framed
pub mod Outcomes
use lp_0008_logos_agent_modu.Base.{◌+◌, Bool, not, ◌&&◌, [], ◌∷◌, ◌++◌, if◌then◌else◌, Text, lit}
use lp_0008_logos_agent_modu.AgentCli.World.{
  Output, Host, Line, to_stdout, to_stderr, failed, Act, pure, bail, ◌>>=◌, ◌>>◌, with_context,
  or_panic, print, output,
}
use lp_0008_logos_agent_modu.AgentCli.CallExpr.{parse_call_expr}
use lp_0008_logos_agent_modu.Std.Strings.{starts_with_char, contains}
use lp_0008_logos_agent_modu.Std.Trim.{is_whitespace, trim_start_matches}

-- A JSON object that mentions the key `error`.
unfoldable pub is_error_response : Text → Bool
is_error_response stdout =
    starts_with_char b'{' (trim_start_matches is_whitespace stdout)
    && contains (lit "\"error\"") stdout

abbrev pub print_some : (Text → Line) → Text → Act (Unit {0})
print_some stream [] = pure tt
print_some stream (c ∷ s) = print (stream (c ∷ s))

-- Both texts, where they are not empty.
abbrev pub forward : Output → Act (Unit {0})
forward o = do print_some to_stdout o.stdout; print_some to_stderr o.stderr

unfoldable pub exit_message : Output → Text → Text → Text
exit_message o expr name =
    lit "logoscore exited with status "
    ++ (o.status
        ++ (lit " for expr `"
            ++ (expr ++ (lit "` on module `" ++ (name ++ (lit "`\nstderr: " ++ o.stderr))))))

unfoldable pub response_message : Output → Text → Text → Text
response_message o expr name =
    lit "logoscore returned an error response for expr `"
    ++ (expr ++ (lit "` on module `" ++ (name ++ (lit "`:\n" ++ o.stdout))))

-- What becomes of the output of a call.
unfoldable pub judge : Output → Text → Text → Act Text
judge o expr name =
    if not o.success
    then bail (exit_message o expr name)
    else if is_error_response o.stdout
    then bail (response_message o expr name)
    else pure o.stdout

module _ (host : Host) where
  unfoldable pub logos_call : Text → Text → Text → Bool → Act Text
  unfolding judge
  logos_call logoscore name expr suppress_output = do
    (method, call_args) ← or_panic (parse_call_expr expr)
    answer ← output host (logoscore ∷ lit "call" ∷ name ∷ method ∷ call_args)
    o ← with_context answer (lit "failed to run logoscore: " ++ logoscore)
    if suppress_output then pure tt else forward o
    judge o expr name
