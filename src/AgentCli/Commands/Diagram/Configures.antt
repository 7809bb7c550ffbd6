-- ===== src/AgentCli/Commands/Diagram/Configures.antt =====
-- The configuration and the funding in the diagram.
use mathlib.Core.Path.{subst}
use lp_0008_logos_agent_modu.Base.{
  ◌≡◌, refl, sym, ap, ◌∙◌, Bool, false, some, List, [], ◌∷◌, ◌++◌, arith, Bool-cases, inl, inr,
  if◌then◌else◌, All, Result, ok, err, Text, lit,
}
use lp_0008_logos_agent_modu.AgentCli.World.{
  Output, CommandLine, Host, World, Error, Outcome, failed, println,
}
use lp_0008_logos_agent_modu.AgentCli.World.Goes.{
  Arrives, Goes, bind-Goes, then-Goes, pure-Goes, with_context-Goes, always-Goes,
}
use lp_0008_logos_agent_modu.AgentCli.CallExpr.{parse_call_expr, call_expr, fund_call_expr}
use lp_0008_logos_agent_modu.AgentCli.CallExpr.Plain.{Plain, parse-call_expr-Plain}
use lp_0008_logos_agent_modu.AgentCli.Calls.{exit_message, response_message, logos_call}
use lp_0008_logos_agent_modu.AgentCli.Calls.Outcomes.{call_outcome, logos_call_lem}
use lp_0008_logos_agent_modu.AgentCli.Wait.Guarantees.{accepted}
use lp_0008_logos_agent_modu.AgentCli.Commands.{
  UpArgs, unwrap_or_empty, not_found, configure_pair, configure_pairs, pairs_of, cmd_configure,
  announce_fund, cmd_fund,
}
use lp_0008_logos_agent_modu.AgentCli.Commands.Configure.{set_command, PlainPair}
use lp_0008_logos_agent_modu.AgentCli.Commands.Secrets.{fund_command}
use lp_0008_logos_agent_modu.AgentCli.Commands.Success.Configured.{
  PlainValues, configure_of, pairs_of-Plain, accepted-outcome,
}
use lp_0008_logos_agent_modu.AgentCli.Commands.Diagram.{
  Phase, configuring, refused, funded, sets, refuses, funds,
}
use lp_0008_logos_agent_modu.AgentCli.Commands.Diagram.Walks

rejected-outcome :
    (logoscore name expr : Text) (r : Result Output Text)
    → accepted r ≡ false
    → (e : Error) × (call_outcome logoscore name expr r ≡ failed e)
rejected-outcome logoscore name expr (ok o) h =
    ((if o.success then response_message o expr name else exit_message o expr name) ∷ [], rw h refl)
rejected-outcome logoscore name expr (err e) h = (_, refl)

module _ (host : Host) (logoscore dir : Text) (args : UpArgs) (start : List CommandLine)
    (is_there : host.canonicalize args.modules_dir ≡ ok dir) where
  abbrev At : Phase → World → Type 0
  At =
      Walks.At host logoscore dir (pairs_of (configure_of args)) (unwrap_or_empty args.passphrase)
        args.fund start

  abbrev Somewhere : World → Type 0
  Somewhere =
      Walks.Somewhere host logoscore dir (pairs_of (configure_of args))
        (unwrap_or_empty args.passphrase) args.fund start

  says : {p : Phase} (s : Text) → Goes Somewhere (At p) (At p) (println s)
  says {p} s = always-Goes (λ w walk. (p, walk)) (λ w walk. walk)

  after_call :
      (pair : Text × Text) (rest : List (Text × Text)) (expr : Text) (w : World)
      (r : Outcome Text × World)
      → r.1.ran ≡ w.ran ++ (set_command logoscore pair ∷ [])
      → r.0
        ≡ call_outcome logoscore
            (lit "agent_module")
            expr
            (host.run w.ran (set_command logoscore pair))
      → At (configuring (pair ∷ rest)) w
      → Arrives Somewhere (At (configuring rest)) r
  after_call pair rest expr w r trace outcome walk =
      elim (Bool-cases (accepted (host.run w.ran (set_command logoscore pair)))) [
        | inl accepts ↦
            let (s, e) = accepted-outcome logoscore (lit "agent_module") expr _ accepts in
            subst (λ o. Arrives Somewhere (At (configuring rest)) (o, r.1)) (sym (outcome ∙ e))
              (Walks.step host logoscore dir _ _ _ start (set_command logoscore pair) w r.1 trace
                walk (sets accepts))
        | inr rejects ↦
            let (m, e) = rejected-outcome logoscore (lit "agent_module") expr _ rejects in
            subst (λ o. Arrives Somewhere (At (configuring rest)) (o, r.1)) (sym (outcome ∙ e))
              (
                refused,
                Walks.step host logoscore dir _ _ _ start (set_command logoscore pair) w r.1 trace
                    walk (refuses rejects),
              )
      ]

  -- A call of which the answer decides.
  call-Goes :
      (pair : Text × Text) (rest : List (Text × Text)) (expr : Text) (quiet : Bool) {method : Text}
      {words : List Text}
      → parse_call_expr expr ≡ some (method, words)
      → (logoscore ∷ lit "call" ∷ lit "agent_module" ∷ method ∷ words) ≡ set_command logoscore pair
      → Goes Somewhere
          (At (configuring (pair ∷ rest)))
          (At (configuring rest))
          (logos_call host logoscore (lit "agent_module") expr quiet)
  call-Goes pair rest expr quiet {method} {words} parsed same = record {
    from = λ w walk.
        let r = logos_call host logoscore (lit "agent_module") expr quiet w in
        let (trace, outcome) =
          logos_call_lem host logoscore (lit "agent_module") expr quiet w parsed in
        after_call pair rest expr w r (trace ∙ ap (λ cmd. w.ran ++ (cmd ∷ [])) same)
          (outcome
            ∙ ap (λ cmd. call_outcome logoscore (lit "agent_module") expr (host.run w.ran cmd))
                same)
          walk;
  }

  configure_pair-Goes :
      (key value : Text) (rest : List (Text × Text))
      → Plain key
      → Plain value
      → Goes Somewhere
          (At (configuring ((key, value) ∷ rest)))
          (At (configuring rest))
          (configure_pair host logoscore key value)
  unfolding configure_pair
  configure_pair-Goes key value rest pk pv = then-Goes _ _ (says _) (
      bind-Goes
        (call-Goes (key, value) rest (call_expr (lit "meta_configure") key value) false
          (parse-call_expr-Plain (lit "meta_configure") key value (omega arith) (omega arith) pk pv)
          refl)
        (λ _. pure-Goes tt))

  configure_pairs-Goes :
      (pairs : List (Text × Text))
      → All PlainPair pairs
      → Goes Somewhere
          (At (configuring pairs))
          (At (configuring []))
          (configure_pairs host logoscore pairs)
  unfolding configure_pairs
  configure_pairs-Goes [] h = pure-Goes tt
  configure_pairs-Goes ((key, value) ∷ pairs) ((pk, pv), h) =
      then-Goes _ _ (configure_pair-Goes key value pairs pk pv) (configure_pairs-Goes pairs h)

  pub configure-Goes :
      PlainValues (configure_of args)
      → Goes Somewhere
          (At (configuring (pairs_of (configure_of args))))
          (At (configuring []))
          (cmd_configure host logoscore (configure_of args))
  unfolding cmd_configure
  configure-Goes plain = with_context-Goes (not_found args.modules_dir) _ is_there (
      then-Goes _ _
        (configure_pairs-Goes (pairs_of (configure_of args))
          (pairs_of-Plain (configure_of args) plain))
        (says _))

  fund_call-Goes :
      (tokens : Text)
      → args.fund ≡ some tokens
      → Plain (unwrap_or_empty args.passphrase)
      → Plain tokens
      → Goes Somewhere (At (configuring [])) (At funded) (
          logos_call host logoscore
            (lit "lez_wallet_module")
            (fund_call_expr (unwrap_or_empty args.passphrase) tokens)
            false)
  unfolding fund_call_expr
  fund_call-Goes tokens given pp pa =
      always-Goes (λ w walk. (funded, walk))
        (λ w walk.
          let expr = call_expr (lit "wallet_fund") (unwrap_or_empty args.passphrase) tokens in
          let (trace, outcome) =
            logos_call_lem host logoscore (lit "lez_wallet_module") expr false w (
              parse-call_expr-Plain (lit "wallet_fund") (unwrap_or_empty args.passphrase) tokens
                (omega arith) (omega arith) pp pa) in
          Walks.step host logoscore dir _ _ _ start
            (fund_command logoscore (unwrap_or_empty args.passphrase) tokens) w
            (logos_call host logoscore (lit "lez_wallet_module") expr false w).1 trace walk
            (funds tokens given))

  pub cmd_fund-Goes :
      (tokens : Text)
      → args.fund ≡ some tokens
      → Plain (unwrap_or_empty args.passphrase)
      → Plain tokens
      → Goes Somewhere (At (configuring [])) (At funded) (
          cmd_fund host logoscore (record {
            amount = tokens;
            passphrase = args.passphrase;
            modules_dir = args.modules_dir;
          }))
  unfolding cmd_fund announce_fund
  cmd_fund-Goes tokens given pp pa = with_context-Goes (not_found args.modules_dir) _ is_there (
      then-Goes _ _ (then-Goes _ _ (says _) (then-Goes _ _ (says _) (says _)))
        (bind-Goes (fund_call-Goes tokens given pp pa) (λ _. says _)))
