-- ===== src/AgentCli/Commands/Diagram/Up.antt =====
-- `agent up` as a whole: each of its commands is an edge of the diagram.
use mathlib.Core.Path.{subst}
use lp_0008_logos_agent_modu.Base.{◌≡◌, refl, sym, ap, not, Option, none, some, List, [], ok, Text}
use lp_0008_logos_agent_modu.AgentCli.World.{
  CommandLine, Host, World, Outcome, done, failed, panicked, exhausted, pure, println,
}
use lp_0008_logos_agent_modu.AgentCli.World.Goes.{
  Arrives, Goes, then-Goes, pure-Goes, if-Goes, always-Goes,
}
use lp_0008_logos_agent_modu.AgentCli.Commands.{
  UpArgs, unwrap_or_empty, pairs_of, cmd_fund, fund_if_given, cmd_up,
}
use lp_0008_logos_agent_modu.AgentCli.Commands.Success.Configured.{
  PlainValues, PlainFund, configure_of,
}
use lp_0008_logos_agent_modu.AgentCli.Commands.Diagram.{
  ReadyFor, Walk-ReadyFor, Phase, fresh, configuring, funded, final, Walk, here,
}
use lp_0008_logos_agent_modu.AgentCli.Commands.Diagram.Walks
use lp_0008_logos_agent_modu.AgentCli.Commands.Diagram.Deploys.{deploy-Goes}
use lp_0008_logos_agent_modu.AgentCli.Commands.Diagram.Configures.{configure-Goes, cmd_fund-Goes}

module _ (host : Host) (logoscore dir : Text) (args : UpArgs) (start : List CommandLine)
    (is_there : host.canonicalize args.modules_dir ≡ ok dir) where
  abbrev At : Phase → World → Type 0
  At =
      Walks.At host logoscore dir (pairs_of (configure_of args)) (unwrap_or_empty args.passphrase)
        args.fund start

  abbrev Somewhere : World → Type 0
  Somewhere =
      Walks.Somewhere host logoscore dir (pairs_of (configure_of args))
        (unwrap_or_empty args.passphrase) args.fund start

  says : {p : Phase} (s : Text) → Goes Somewhere (At p) (At p) (println s)
  says {p} s = always-Goes (λ w walk. (p, walk)) (λ w walk. walk)

  abbrev last : Phase
  last =
      final host logoscore dir (pairs_of (configure_of args)) (unwrap_or_empty args.passphrase)
        args.fund

  last_of :
      (amount : Option Text)
      → args.fund ≡ amount
      → last ≡ elim amount [ none ↦ configuring [] | some tokens ↦ funded ]
  last_of amount given =
      ap (λ (a : Option Text). elim a [ none ↦ configuring [] | some tokens ↦ funded ]) given

  fund-Goes :
      (amount : Option Text)
      → args.fund ≡ amount
      → PlainFund amount args.passphrase
      → Goes Somewhere (At (configuring [])) (At last) (fund_if_given host logoscore args amount)
  unfolding fund_if_given
  fund-Goes none given plain =
      subst (λ p. Goes Somewhere (At (configuring [])) (At p) (pure tt)) (sym (last_of none given))
        (pure-Goes tt)
  fund-Goes (some tokens) given (pp, pa) =
      subst
        (λ p. Goes Somewhere (At (configuring [])) (At p) (
          cmd_fund host logoscore (record {
            amount = tokens;
            passphrase = args.passphrase;
            modules_dir = args.modules_dir;
          })))
        (sym (last_of (some tokens) given))
        (cmd_fund-Goes host logoscore dir args start is_there tokens given pp pa)

  up-Goes :
      PlainValues (configure_of args)
      → PlainFund args.fund args.passphrase
      → Goes Somewhere (At fresh) (At last) (cmd_up host logoscore args)
  unfolding cmd_up
  up-Goes values fund = then-Goes _ _ (says _) (
      then-Goes _ _ (deploy-Goes host logoscore dir args start is_there) (
        then-Goes _ _ (configure-Goes host logoscore dir args start is_there values) (
          then-Goes _ _ (fund-Goes args.fund refl fund) (
            then-Goes _ _
              (if-Goes (not args.detach) (then-Goes _ _ (says _) (says _)) (pure-Goes tt))
              (says _)))))

  arrived :
      (r : Outcome (Unit {0}) × World)
      → Arrives Somewhere (At last) r
      → (p : Phase) × At p r.1 × (r.0 ≡ done tt → p ≡ last)
  arrived (done a, w) walk = (last, walk, λ e. refl)
  arrived (failed e, w) (p, walk) = (p, walk, λ q. absurd (cc))
  arrived (panicked, w) (p, walk) = (p, walk, λ q. absurd (cc))
  arrived (exhausted, w) (p, walk) = (p, walk, λ q. absurd (cc))

-- With values without commas and control characters and a modules directory that is there, the
-- commands that `agent up` runs are a walk through the diagram, however it ends, and one to the
-- last phase if it succeeds. So no module is loaded before `status` printed `"running"`, and no
-- value is set before `meta_status` was answered well.
pub cmd_up-Walk :
    (host : Host) (logoscore dir : Text) (args : UpArgs) (w : World)
    → host.canonicalize args.modules_dir ≡ ok dir
    → PlainValues (configure_of args)
    → PlainFund args.fund args.passphrase
    → let pairs = pairs_of (configure_of args) in
      let passphrase = unwrap_or_empty args.passphrase in
      let r = cmd_up host logoscore args w in
      (p : Phase) × Walk host logoscore dir pairs passphrase args.fund w.ran r.1.ran p
      × ReadyFor host logoscore dir pairs passphrase args.fund p r.1.ran
      × (r.0 ≡ done tt → p ≡ final host logoscore dir pairs passphrase args.fund)
cmd_up-Walk host logoscore dir args w there values fund =
    let (p, walk, ends) =
      arrived host logoscore dir args w.ran there (cmd_up host logoscore args w)
        ((up-Goes host logoscore dir args w.ran there values fund).from w here) in
    (p, walk, Walk-ReadyFor host logoscore dir _ _ _ w.ran walk, ends)
