-- ===== src/AgentCli/Wait.antt =====
-- The two polling loops of agent-cli/src/main.rs, `wait_for_capability` and `wait_for_daemon`.
pub mod Poll
pub mod Guarantees
pub mod Liveness
pub mod Arrival
use lp_0008_logos_agent_modu.Base.{Bool, true, false, not, [], ◌∷◌, Result, ok, err, Text, lit}
use lp_0008_logos_agent_modu.AgentCli.World.{
  Output, Host, World, Outcome, done, failed, panicked, exhausted, Act, pure, ◌>>=◌, ◌>>◌, output,
}
use lp_0008_logos_agent_modu.AgentCli.Calls.{logos_call}
use lp_0008_logos_agent_modu.AgentCli.Wait.Poll.{poll_until, fuel_for}
use lp_0008_logos_agent_modu.Std.Strings.{contains}

attempt : Outcome Text × World → Outcome Bool × World
attempt (done _, w) = (done true, w)
attempt (failed e, w) = (done false, w)
attempt (panicked, w) = (panicked, w)
attempt (exhausted, w) = (exhausted, w)

unfoldable pub says_running : Result Output Text → Bool
says_running (ok o) = contains (lit "\"running\"") o.stdout
says_running (err e) = false

module _ (host : Host) where
  -- One round: the daemon is up if it prints `"running"`. A command that cannot be run counts as
  -- not ready.
  unfoldable pub probe_capability : Text → Act Bool
  unfolding says_running
  probe_capability logoscore = do
    answer ← output host (logoscore ∷ lit "status" ∷ [])
    pure (says_running answer)

  unfoldable pub wait_for_capability : Text → Act (Unit {0})
  wait_for_capability logoscore w =
      poll_until (probe_capability logoscore) 30_000 (lit "daemon did not start within 30s")
        w.now_ms (fuel_for 30_000) w

  -- One round: any error of the call counts as not ready.
  unfoldable pub probe_daemon : Text → Act Bool
  unfolding attempt
  probe_daemon logoscore w =
      attempt (logos_call host logoscore (lit "agent_module") (lit "meta_status()") true w)

  unfoldable pub wait_for_daemon : Text → Act (Unit {0})
  wait_for_daemon logoscore w =
      poll_until (probe_daemon logoscore) 60_000 (lit "daemon did not become ready within 60s")
        w.now_ms (fuel_for 60_000) w
