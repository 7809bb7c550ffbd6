-- ===== src/AgentCli/Commands/Success/Configured.antt =====
-- With a daemon that is up, the calls of `agent configure` and `agent fund` succeed, and so does
-- `agent up`.
use lp_0008_logos_agent_modu.Base.{
  ℕ, ◌+◌, ◌*◌, ◌≤◌, ◌≡◌, refl, ap, ◌∙◌, Bool, true, false, not, Option, none, some, List, [], ◌∷◌,
  ◌++◌, arith, All, Result, ok, err, Text, lit,
}
use lp_0008_logos_agent_modu.AgentCli.World.{CommandLine, Output, Host, World, done, println}
use lp_0008_logos_agent_modu.AgentCli.World.Frame.{IsFrame}
use lp_0008_logos_agent_modu.AgentCli.World.Success.{
  Succeeds, bind-Succeeds, then-Succeeds, pure-Succeeds, with_context-Succeeds, if-Succeeds,
  Within-Succeeds,
}
use lp_0008_logos_agent_modu.AgentCli.CallExpr.{parse_call_expr, call_expr, fund_call_expr}
use lp_0008_logos_agent_modu.AgentCli.CallExpr.Plain.{Plain, parse-call_expr-Plain}
use lp_0008_logos_agent_modu.AgentCli.Calls.{logos_call}
use lp_0008_logos_agent_modu.AgentCli.Calls.Framed.{logos_call-Within}
use lp_0008_logos_agent_modu.AgentCli.Calls.Outcomes.{call_outcome, logos_call_lem}
use lp_0008_logos_agent_modu.AgentCli.Wait.Guarantees.{accepted}
use lp_0008_logos_agent_modu.AgentCli.Commands.{
  ConfigureArgs, FundArgs, UpArgs, unwrap_or_empty, not_found, configure_pair, configure_pairs,
  pairs_of, cmd_configure, announce_fund, cmd_fund, fund_if_given, cmd_up,
}
use lp_0008_logos_agent_modu.AgentCli.Commands.Configure.{PlainPair, set_command}
use lp_0008_logos_agent_modu.AgentCli.Commands.Secrets.{fund_command}
use lp_0008_logos_agent_modu.AgentCli.Modules.{directory_names}
use lp_0008_logos_agent_modu.AgentCli.Modules.Order.{agent_last}
use lp_0008_logos_agent_modu.AgentCli.Commands.Success.{
  IsUp, Loaded, Serves, Onward, frame, Any, Ready, Ready-kept, say, say-Ready, cmd_deploy-Succeeds,
}
use lp_0008_logos_agent_modu.AgentCli.Commands.Up.{cmd_up-LeavesOne}

-- The values that `agent configure` sets hold no comma and no control character.
abbrev pub PlainValues : ConfigureArgs → Type 0
PlainValues args =
    Plain args.owner
    × Plain args.per_tx_limit
    × Plain args.per_period_limit
    × Plain args.period_seconds

pub pairs_of-Plain : (args : ConfigureArgs) → PlainValues args → All PlainPair (pairs_of args)
pairs_of-Plain args (po, pt, pp, ps) = (
  ((omega arith, omega arith), po),
  (
    ((omega arith, omega arith), pt),
    (((omega arith, omega arith), pp), (((omega arith, omega arith), ps), tt)),
  ),
)

pub accepted-outcome :
    (logoscore name expr : Text) (r : Result Output Text)
    → accepted r ≡ true
    → (s : Text) × (call_outcome logoscore name expr r ≡ done s)
accepted-outcome logoscore name expr (ok o) h = (o.stdout, rw h refl)
accepted-outcome logoscore name expr (err e) h = absurd (cc)

module _ (host : Host) (logoscore : Text) (n d : ℕ) (modules_dir : Text)
    (serves : Serves host logoscore n d modules_dir) (in_time : n * (d + 500) ≤ 30_000) where
  abbrev Prepared : World → Type 0
  Prepared = Ready host logoscore n d modules_dir serves in_time

  abbrev on : IsFrame host (Onward host logoscore n d modules_dir serves in_time)
  on = frame host logoscore n d modules_dir serves in_time

  announce : (s : Text) → Succeeds Prepared Prepared (println s)
  announce = say-Ready host logoscore n d modules_dir serves in_time

  -- The command is accepted once the modules were loaded.
  abbrev pub Accepted : CommandLine → Type 0
  Accepted cmd =
      (before : List CommandLine)
      → IsUp host logoscore before
      → Loaded host logoscore (agent_last (directory_names serves.entries)) before
      → accepted (host.run before cmd) ≡ true

  -- A call that is read is accepted.
  call-Succeeds :
      (name expr : Text) (quiet : Bool) {method : Text} {args : List Text}
      → parse_call_expr expr ≡ some (method, args)
      → Accepted (logoscore ∷ lit "call" ∷ name ∷ method ∷ args)
      → Succeeds Prepared Prepared (logos_call host logoscore name expr quiet)
  call-Succeeds name expr quiet {method} {args} h good =
      Within-Succeeds on (Ready-kept host logoscore n d modules_dir serves in_time)
        (logos_call-Within on logoscore name expr quiet)
        (λ w (up, loaded).
          let (_, outcome) = logos_call_lem host logoscore name expr quiet w h in
          let (s, e) =
            accepted-outcome logoscore name expr
              (host.run w.ran (logoscore ∷ lit "call" ∷ name ∷ method ∷ args))
              (good w.ran up loaded) in
          (s, outcome ∙ e))

  configure_pair-Succeeds :
      (key value : Text)
      → Plain key
      → Plain value
      → Accepted (set_command logoscore (key, value))
      → Succeeds Prepared Prepared (configure_pair host logoscore key value)
  unfolding configure_pair
  configure_pair-Succeeds key value pk pv good = then-Succeeds _ _ (announce _) (
      bind-Succeeds
        (call-Succeeds (lit "agent_module") (call_expr (lit "meta_configure") key value) false
          (parse-call_expr-Plain (lit "meta_configure") key value (omega arith) (omega arith) pk pv)
          good)
        (λ _. pure-Succeeds tt))

  configure_pairs-Succeeds :
      (pairs : List (Text × Text))
      → All PlainPair pairs
      → All (λ pair. Accepted (set_command logoscore pair)) pairs
      → Succeeds Prepared Prepared (configure_pairs host logoscore pairs)
  unfolding configure_pairs
  configure_pairs-Succeeds [] h good = pure-Succeeds tt
  configure_pairs-Succeeds ((key, value) ∷ pairs) ((pk, pv), h) (a, good) =
      then-Succeeds _ _ (configure_pair-Succeeds key value pk pv a)
        (configure_pairs-Succeeds pairs h good)

  pub cmd_configure-Succeeds :
      (args : ConfigureArgs)
      → args.modules_dir ≡ modules_dir
      → PlainValues args
      → All (λ pair. Accepted (set_command logoscore pair)) (pairs_of args)
      → Succeeds Prepared Prepared (cmd_configure host logoscore args)
  unfolding cmd_configure
  cmd_configure-Succeeds args same plain good =
      with_context-Succeeds (not_found args.modules_dir) _
        (ap host.canonicalize same ∙ serves.is_there)
        (then-Succeeds _ _
          (configure_pairs-Succeeds (pairs_of args) (pairs_of-Plain args plain) good) (announce _))

  pub cmd_fund-Succeeds :
      (args : FundArgs)
      → args.modules_dir ≡ modules_dir
      → Plain (unwrap_or_empty args.passphrase)
      → Plain args.amount
      → Accepted (fund_command logoscore (unwrap_or_empty args.passphrase) args.amount)
      → Succeeds Prepared Prepared (cmd_fund host logoscore args)
  unfolding cmd_fund announce_fund fund_call_expr
  cmd_fund-Succeeds args same pp pa good =
      with_context-Succeeds (not_found args.modules_dir) _
        (ap host.canonicalize same ∙ serves.is_there)
        (then-Succeeds _ _
          (then-Succeeds _ _ (announce _) (then-Succeeds _ _ (announce _) (announce _)))
          (bind-Succeeds
            (call-Succeeds (lit "lez_wallet_module") _ false
              (parse-call_expr-Plain (lit "wallet_fund") (unwrap_or_empty args.passphrase)
                args.amount (omega arith) (omega arith) pp pa)
              good)
            (λ _. announce _)))

-- What `agent up` hands to `agent configure`.
abbrev pub configure_of : UpArgs → ConfigureArgs
configure_of args = record {
  owner = args.owner;
  per_tx_limit = args.per_tx_limit;
  per_period_limit = args.per_period_limit;
  period_seconds = args.period_seconds;
  modules_dir = args.modules_dir;
}

-- The amount and the passphrase, if there is an amount.
abbrev pub PlainFund : Option Text → Option Text → Type 0
PlainFund none passphrase = Unit
PlainFund (some amount) passphrase = Plain (unwrap_or_empty passphrase) × Plain amount

module _ (host : Host) (logoscore : Text) (n d : ℕ) (args : UpArgs)
    (serves : Serves host logoscore n d args.modules_dir) (in_time : n * (d + 500) ≤ 30_000) where
  abbrev UpReady : World → Type 0
  UpReady = Ready host logoscore n d args.modules_dir serves in_time

  tell : (s : Text) → Succeeds UpReady UpReady (println s)
  tell = say-Ready host logoscore n d args.modules_dir serves in_time

  -- The agent accepts the values, once the modules were loaded.
  abbrev pub AcceptsValues : Type 0
  AcceptsValues =
      All
        (λ pair.
          Accepted host logoscore n d args.modules_dir serves in_time (set_command logoscore pair))
        (pairs_of (configure_of args))

  -- If there is an amount, the wallet module accepts the call that funds the agent.
  abbrev pub AcceptsFund : Option Text → Type 0
  AcceptsFund none = Unit
  AcceptsFund (some amount) =
      Accepted host logoscore n d args.modules_dir serves in_time
        (fund_command logoscore (unwrap_or_empty args.passphrase) amount)

  fund_if_given-Succeeds :
      (amount : Option Text)
      → PlainFund amount args.passphrase
      → AcceptsFund amount
      → Succeeds UpReady UpReady (fund_if_given host logoscore args amount)
  unfolding fund_if_given
  fund_if_given-Succeeds none plain good = pure-Succeeds tt
  fund_if_given-Succeeds (some amount) (pp, pa) good =
      cmd_fund-Succeeds host logoscore n d args.modules_dir serves in_time
        (record { amount = amount; passphrase = args.passphrase; modules_dir = args.modules_dir })
        refl pp pa good

  up-Succeeds :
      PlainValues (configure_of args)
      → PlainFund args.fund args.passphrase
      → AcceptsValues
      → AcceptsFund args.fund
      → Succeeds
          (Any host logoscore n d args.modules_dir serves in_time)
          UpReady
          (cmd_up host logoscore args)
  unfolding cmd_up
  up-Succeeds values fund takes funds =
      then-Succeeds _ _ (say host logoscore n d args.modules_dir serves in_time _) (
        then-Succeeds _ _ (cmd_deploy-Succeeds host logoscore n d args.modules_dir serves in_time) (
          then-Succeeds _ _
            (cmd_configure-Succeeds host logoscore n d args.modules_dir serves in_time
              (configure_of args) refl values takes)
            (then-Succeeds _ _ (fund_if_given-Succeeds args.fund fund funds) (
              then-Succeeds _ _
                (if-Succeeds (not args.detach) (then-Succeeds _ _ (tell _) (tell _))
                  (pure-Succeeds tt))
                (tell _)))))

  -- If the daemon comes up in time, `agent up` succeeds: on a host that serves the daemon, which
  -- prints `"running"` after `n` rounds that fit into 30 seconds, and where the agent, once the
  -- modules were loaded, answers and accepts the calls, with values without commas and control
  -- characters. It has then started exactly one child, which it leaks, the daemon is up, and the
  -- modules were loaded while it was.
  pub cmd_up_ready :
      PlainValues (configure_of args)
      → PlainFund args.fund args.passphrase
      → AcceptsValues
      → AcceptsFund args.fund
      → (w : World)
      → let r = cmd_up host logoscore args w in
        (r.0 ≡ done tt)
        × ((pid : ℕ) × (r.1.spawned ≡ w.spawned ++ (pid ∷ []))
            × (r.1.forgotten ≡ w.forgotten ++ (pid ∷ [])))
        × IsUp host logoscore r.1.ran
        × Loaded host logoscore (agent_last (directory_names serves.entries)) r.1.ran
  cmd_up_ready values fund takes funds w =
      let (_, ended, (up, loaded)) = (up-Succeeds values fund takes funds).from w tt in
      let (pids, spawned, few, waits, leaves) = cmd_up-LeavesOne host logoscore args w in
      let (pid, one, left) = leaves ended in
      (ended, (pid, spawned ∙ ap (λ t. w.spawned ++ t) one, left), up, loaded)
