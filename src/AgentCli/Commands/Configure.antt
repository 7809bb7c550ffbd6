-- ===== src/AgentCli/Commands/Configure.antt =====
-- What `agent configure` runs.
use mathlib.Core.Path.{subst}
use lp_0008_logos_agent_modu.Base.{
  ◌⊎◌, inl, inr, Bool, true, Bool-cases, Result, err, ◌≡◌, refl, sym, ap, ◌∙◌, false, List, [], ◌∷◌,
  ◌++◌, map, append-nil, append_assoc, if◌then◌else◌, arith, All, ok, Text, lit,
}
use lp_0008_logos_agent_modu.AgentCli.World.{
  Output, Error, CommandLine, Host, World, Outcome, done, failed, panicked, exhausted, Act, pure,
  continue, println,
}
use lp_0008_logos_agent_modu.AgentCli.CallExpr.{rewrap, call_expr}
use lp_0008_logos_agent_modu.AgentCli.CallExpr.Plain.{Plain, parse-call_expr-Plain}
use lp_0008_logos_agent_modu.AgentCli.Calls.{response_message, exit_message}
use lp_0008_logos_agent_modu.AgentCli.Calls.Outcomes.{call_outcome, logos_call_lem}
use lp_0008_logos_agent_modu.AgentCli.Wait.Guarantees.{accepted}
use lp_0008_logos_agent_modu.AgentCli.Modules.Order.{continue_done}
use lp_0008_logos_agent_modu.AgentCli.Commands.{
  ConfigureArgs, configure_pair, configure_pairs, pairs_of, cmd_configure,
}

-- The command that sets one value.
abbrev pub set_command : Text → Text × Text → CommandLine
set_command logoscore (key, value) =
    logoscore
    ∷ lit "call"
    ∷ lit "agent_module"
    ∷ lit "meta_configure"
    ∷ rewrap key
    ∷ rewrap value
    ∷ []

abbrev pub PlainPair : Text × Text → Type 0
PlainPair (key, value) = Plain key × Plain value

-- How a call ends, by whether its answer is accepted.
Judged : Bool → Outcome (Unit {0}) → Type 0
Judged true o = o ≡ done tt
Judged false o = (e : Error) × (o ≡ failed e)

pub continue_failed :
    {A B : Type 0} (r : Outcome A × World) (f : A → Act B) (e : Error)
    → r.0 ≡ failed e
    → (continue r f).0 ≡ failed e
continue_failed (done a, w) f e h = absurd (cc)
continue_failed (failed e', w) f e h = cc
continue_failed (panicked, w) f e h = absurd (cc)
continue_failed (exhausted, w) f e h = absurd (cc)

continue-pure-done :
    (r : Outcome Text × World) {s : Text} → r.0 ≡ done s → (continue r (λ _. pure tt)).0 ≡ done tt
continue-pure-done (done s, w) h = refl
continue-pure-done (failed e, w) h = absurd (cc)
continue-pure-done (panicked, w) h = absurd (cc)
continue-pure-done (exhausted, w) h = absurd (cc)

outcome-Judged :
    (logoscore name expr : Text) (q : Result Output Text) (r : Outcome Text × World)
    → r.0 ≡ call_outcome logoscore name expr q
    → Judged (accepted q) (continue r (λ _. pure tt)).0
unfolding Judged
outcome-Judged logoscore name expr (err cause) r h = (_, continue_failed r (λ _. pure tt) _ h)
outcome-Judged logoscore name expr (ok o) r h = elim (Bool-cases (accepted (ok o))) [
  | inl good ↦
      let ended : r.0 ≡ done o.stdout = h ∙ rw good refl in rw good (continue-pure-done r ended)
  | inr bad ↦
      let e : Error =
        (if o.success then response_message o expr name else exit_message o expr name) ∷ [] in
      let ended : r.0 ≡ failed e = h ∙ rw bad refl in
      rw bad (e, continue_failed r (λ _. pure tt) e ended)
]

continue-pure-world : (r : Outcome Text × World) → (continue r (λ _. pure tt)).1 ≡ r.1
continue-pure-world (done s, w) = refl
continue-pure-world (failed e, w) = refl
continue-pure-world (panicked, w) = refl
continue-pure-world (exhausted, w) = refl

module _ (host : Host) (logoscore : Text) where
  configure_pair-ran :
      (key value : Text) (w : World)
      → Plain key
      → Plain value
      → let cmd = set_command logoscore (key, value) in
        let r = configure_pair host logoscore key value w in
        (r.1.ran ≡ w.ran ++ (cmd ∷ [])) × Judged (accepted (host.run w.ran cmd)) r.0
  unfolding configure_pair
  configure_pair-ran key value w k v =
      let (ran, outcome) =
        logos_call_lem host logoscore (lit "agent_module")
          (call_expr (lit "meta_configure") key value) false (record w { printed = _ })
          (parse-call_expr-Plain (lit "meta_configure") key value (omega arith) (omega arith) k
            v) in
      (
        ap (λ (u : World). u.ran) (continue-pure-world _) ∙ ran,
        outcome-Judged logoscore _ _ _ _ outcome,
      )

  -- The commands were run one after the other, and each was accepted.
  abbrev pub AllAccepted : List CommandLine → List CommandLine → Type 0
  AllAccepted before [] = Unit
  AllAccepted before (cmd ∷ cmds) =
      (accepted (host.run before cmd) ≡ true) × AllAccepted (before ++ (cmd ∷ [])) cmds

  -- All commands that are meant were run and accepted, or those up to the first that was not.
  abbrev pub RanFirst : List CommandLine → List CommandLine → Outcome (Unit {0}) × World → Type 0
  RanFirst before meant r =
      ((r.0 ≡ done tt) × (r.1.ran ≡ before ++ meant) × AllAccepted before meant)
      ⊎ ((first : List CommandLine) × (cmd : CommandLine) × (rest : List CommandLine) × (e : Error)
          × (meant ≡ first ++ cmd ∷ rest)
          × (r.0 ≡ failed e)
          × (r.1.ran ≡ before ++ (first ++ (cmd ∷ [])))
          × AllAccepted before first
          × (accepted (host.run (before ++ first) cmd) ≡ false))

  refused_first :
      (before : List CommandLine) (cmd : CommandLine) (rest : List CommandLine)
      (r : Outcome (Unit {0}) × World) (next : Act (Unit {0})) {e : Error}
      → r.1.ran ≡ before ++ (cmd ∷ [])
      → r.0 ≡ failed e
      → accepted (host.run before cmd) ≡ false
      → RanFirst before (cmd ∷ rest) (continue r (λ _. next))
  refused_first before cmd rest (failed e', w) next ran h bad =
      inr ([], cmd, rest, e', refl, refl, ran, tt, rw append-nil bad)
  refused_first before cmd rest (done tt, w) next ran h bad = absurd (cc)
  refused_first before cmd rest (panicked, w) next ran h bad = absurd (cc)
  refused_first before cmd rest (exhausted, w) next ran h bad = absurd (cc)

  accepted_first :
      (before : List CommandLine) (cmd : CommandLine) (meant : List CommandLine)
      (r : Outcome (Unit {0}) × World)
      → accepted (host.run before cmd) ≡ true
      → RanFirst (before ++ (cmd ∷ [])) meant r
      → RanFirst before (cmd ∷ meant) r
  accepted_first before cmd meant r good (inl (ended, ran, all)) =
      inl (ended, ran ∙ append_assoc before _ _, (good, all))
  accepted_first before cmd meant r good (inr (first, last, rest, e, split, ended, ran, all, bad)) =
      inr (
        cmd ∷ first,
        last,
        rest,
        e,
        ap (λ t. cmd ∷ t) split,
        ended,
        ran ∙ append_assoc before _ _,
        (good, all),
        ap (λ t. accepted (host.run t last)) (sym (append_assoc before (cmd ∷ []) first)) ∙ bad,
      )

  configure_pairs-ran :
      (pairs : List (Text × Text)) (w : World)
      → All PlainPair pairs
      → RanFirst w.ran (map (set_command logoscore) pairs) (configure_pairs host logoscore pairs w)
  unfolding configure_pairs Judged
  configure_pairs-ran [] w h = inl (refl, sym (append-nil w.ran), tt)
  configure_pairs-ran ((key, value) ∷ pairs) w ((pk, pv), h) =
      let cmd = set_command logoscore (key, value) in
      let r = configure_pair host logoscore key value w in
      let (ran, judged) = configure_pair-ran key value w pk pv in
      elim (Bool-cases (accepted (host.run w.ran cmd))) [
        | inl good ↦
            let ended : r.0 ≡ done tt = subst (λ b. Judged b r.0) good judged in
            rw (continue_done r (λ _. configure_pairs host logoscore pairs) ended) (
              accepted_first w.ran cmd (map (set_command logoscore) pairs)
                (configure_pairs host logoscore pairs r.1) good
                (subst
                  (λ t.
                    RanFirst t (map (set_command logoscore) pairs)
                      (configure_pairs host logoscore pairs r.1))
                  ran (configure_pairs-ran pairs r.1 h)))
        | inr bad ↦
            let (e, ended) = subst (λ b. Judged b r.0) bad judged in
            refused_first w.ran cmd _ r _ ran ended bad
      ]

  after_pairs :
      (before meant : List CommandLine) (r : Outcome (Unit {0}) × World) (text : Text)
      → RanFirst before meant r
      → RanFirst before meant (continue r (λ _. println text))
  after_pairs before meant (done a, w) text (inl (ended, ran, all)) = inl (refl, ran, all)
  after_pairs before meant (done a, w) text (inr (f, c, t, e, s, ended, ran, all, bad)) =
      absurd (cc)
  after_pairs before meant (failed e, w) text h = h
  after_pairs before meant (panicked, w) text h = h
  after_pairs before meant (exhausted, w) text h = h

  -- With values that hold no comma and no control character, `agent configure` sets the owner and
  -- the three limits in this order, one command for each, and stops at the first that fails: it
  -- succeeds after all four, each accepted, or fails after the first that was not accepted.
  pub cmd_configure-ran :
      (args : ConfigureArgs) (w : World) {dir : Text}
      → host.canonicalize args.modules_dir ≡ ok dir
      → Plain args.owner
      → Plain args.per_tx_limit
      → Plain args.per_period_limit
      → Plain args.period_seconds
      → RanFirst w.ran
          (map (set_command logoscore) (pairs_of args))
          (cmd_configure host logoscore args w)
  unfolding cmd_configure
  cmd_configure-ran args w h po pt pp ps = rw h (
      after_pairs _ _ (configure_pairs host logoscore (pairs_of args) w) _ (
        configure_pairs-ran (pairs_of args) w (
          ((omega arith, omega arith), po),
          (
            ((omega arith, omega arith), pt),
            (((omega arith, omega arith), pp), (((omega arith, omega arith), ps), tt)),
          ),
        )))
