-- ===== src/AgentCli/Commands/Diagram/Deploys.antt =====
-- The deployment in the diagram.

use lp_0008_logos_agent_modu.Base.{ℕ, ◌≡◌, refl, true, List, [], ◌∷◌, Result, ok, err, Text, lit}
use lp_0008_logos_agent_modu.AgentCli.World.{CommandLine, Host, World, with_context, println}
use lp_0008_logos_agent_modu.AgentCli.World.Goes.{
  Goes, bind-Goes, then-Goes, with_context-Goes, always-Goes,
}
use lp_0008_logos_agent_modu.AgentCli.Commands.{
  UpArgs, unwrap_or_empty, not_found, spawn_daemon, leave_or_wait, bring_up, cmd_deploy, pairs_of,
}
use lp_0008_logos_agent_modu.AgentCli.Commands.Success.Configured.{configure_of}
use lp_0008_logos_agent_modu.AgentCli.Commands.Diagram.{Phase, fresh, waiting, configuring, spawns}
use lp_0008_logos_agent_modu.AgentCli.Commands.Diagram.Walks

with_context-ran :
    {A : Type 0} (r : Result A Text) (message : Text) (w : World)
    → (with_context r message w).1.ran ≡ w.ran
with_context-ran (ok a) message w = refl
with_context-ran (err e) message w = refl

module _ (host : Host) (logoscore dir : Text) (args : UpArgs) (start : List CommandLine)
    (is_there : host.canonicalize args.modules_dir ≡ ok dir) where
  abbrev At : Phase → World → Type 0
  At =
      Walks.At host logoscore dir (pairs_of (configure_of args)) (unwrap_or_empty args.passphrase)
        args.fund start

  abbrev Somewhere : World → Type 0
  Somewhere =
      Walks.Somewhere host logoscore dir (pairs_of (configure_of args))
        (unwrap_or_empty args.passphrase) args.fund start

  says : {p : Phase} (s : Text) → Goes Somewhere (At p) (At p) (println s)
  says {p} s = always-Goes (λ w walk. (p, walk)) (λ w walk. walk)

  spawn-Goes : Goes Somewhere (At fresh) (At waiting) (spawn_daemon host logoscore dir)
  unfolding spawn_daemon
  spawn-Goes =
      always-Goes (λ w walk. (waiting, walk))
        (λ w walk.
          Walks.step host logoscore dir _ _ _ start (logoscore ∷ lit "-D" ∷ lit "-m" ∷ dir ∷ []) w
            (spawn_daemon host logoscore dir w).1 (with_context-ran (host.spawn w.ran _) _ _) walk
            spawns)

  abbrev listed : List Text
  listed =
      Walks.listed host logoscore dir (pairs_of (configure_of args))
        (unwrap_or_empty args.passphrase) args.fund start

  bring_up-Goes :
      (pid : ℕ)
      → Goes Somewhere
          (At waiting)
          (At (configuring (pairs_of (configure_of args))))
          (bring_up host logoscore dir pid)
  unfolding bring_up
  bring_up-Goes pid = then-Goes _ _ (says _) (
      then-Goes _ _ (Walks.capability-Goes host logoscore dir _ _ _ start) (
        then-Goes _ _ (says _) (
          then-Goes _ _ (says _) (
            then-Goes _ _ (Walks.load_all-Goes host logoscore dir _ _ _ start) (
              then-Goes _ _ (says _) (
                then-Goes _ _ (says _)
                  (then-Goes _ _ (Walks.daemon-Goes host logoscore dir _ _ _ start) (says _))))))))

  leave-Goes : (p : Phase) (pid : ℕ) → Goes Somewhere (At p) (At p) (leave_or_wait host pid true)
  unfolding leave_or_wait
  leave-Goes p pid = always-Goes (λ w walk. (p, walk)) (λ w walk. walk)

  pub deploy-Goes :
      Goes Somewhere
        (At fresh)
        (At (configuring (pairs_of (configure_of args))))
        (cmd_deploy host logoscore (record { modules_dir = args.modules_dir; detach = true }))
  unfolding cmd_deploy
  deploy-Goes = with_context-Goes (not_found args.modules_dir) _ is_there (
      then-Goes _ _ (says _)
        (bind-Goes spawn-Goes (λ pid. then-Goes _ _ (bring_up-Goes pid) (leave-Goes _ pid))))
