-- ===== src/AgentCli/Commands/Up.antt =====
-- What `agent up` does with the daemon that it spawns.
use lp_0008_logos_agent_modu.Base.{
  ℕ, ◌≤◌, List, length, append-nil, sym, arith, Result, ok, err, ◌≡◌, refl, ap, ◌∙◌, true, not, [],
  ◌∷◌, ◌++◌, if◌then◌else◌, Text, lit,
}
use lp_0008_logos_agent_modu.AgentCli.World.{
  Host, World, to_stdout, Outcome, done, failed, panicked, exhausted, Act, pure, continue, ◌>>=◌,
  ◌>>◌, println, spawn, started, with_context,
}
use lp_0008_logos_agent_modu.AgentCli.World.Frame.{
  IsFrame, Within, then-Within, pure-Within, print-Within, with_context-Within, if-Within,
  SameChildren, SameChildren-IsFrame,
}
use lp_0008_logos_agent_modu.AgentCli.Commands.Framed.{
  bring_up-Within, cmd_configure-Within, fund_if_given-Within, up_hints-Within,
}
use lp_0008_logos_agent_modu.AgentCli.Commands.{
  ConfigureArgs, UpArgs, not_found, spawn_daemon, leave_or_wait, bring_up, cmd_deploy,
  cmd_configure, fund_if_given, up_hints, cmd_up,
}

-- At most one child was started and none was waited for; on success one was started, and leaked.
abbrev pub LeavesOne : World → Outcome (Unit {0}) × World → Type 0
LeavesOne w r =
    (pids : List ℕ) × (r.1.spawned ≡ w.spawned ++ pids)
    × (length pids ≤ 1)
    × (r.1.waited ≡ w.waited)
    × (r.0 ≡ done tt → (pid : ℕ) × (pids ≡ pid ∷ []) × (r.1.forgotten ≡ w.forgotten ++ (pid ∷ [])))

-- Nothing was started yet.
unspawned :
    (w v : World) (o : Outcome (Unit {0}))
    → SameChildren w v
    → (o ≡ done tt → ⊥)
    → LeavesOne w (o, v)
unspawned w v o (s, h, f) never =
    ([], s ∙ sym (append-nil w.spawned), omega arith, h, λ e. absurd (never e))

continue-LeavesOne :
    {A : Type 0} (w : World) (r : Outcome A × World) (f : A → Act (Unit {0}))
    → SameChildren w r.1
    → ((a : A) (v : World) → LeavesOne v (f a v))
    → LeavesOne w (continue r f)
continue-LeavesOne w (done a, v) f (s, h, g) k =
    let (pids, spawns, few, waits, leaves) = k a v in
    (
      pids,
      spawns ∙ ap (λ t. t ++ pids) s,
      few,
      waits ∙ h,
      λ e. let (pid, one, left) = leaves e in (pid, one, left ∙ ap (λ t. t ++ (pid ∷ [])) g),
    )
continue-LeavesOne w (failed e, v) f h k = unspawned w v _ h (λ p. cc)
continue-LeavesOne w (panicked, v) f h k = unspawned w v _ h (λ p. cc)
continue-LeavesOne w (exhausted, v) f h k = unspawned w v _ h (λ p. cc)

LeavesOne-continue :
    (w : World) (r : Outcome (Unit {0}) × World) (next : Act (Unit {0}))
    → LeavesOne w r
    → Within SameChildren next
    → LeavesOne w (continue r (λ _. next))
LeavesOne-continue w (done tt, v) next (pids, spawns, few, waits, leaves) k =
    let (pid, one, left) = leaves refl in
    let (s, h, g) = k.holds v in (pids, s ∙ spawns, few, h ∙ waits, λ e. (pid, one, g ∙ left))
LeavesOne-continue w (failed e, v) next (pids, spawns, few, waits, leaves) k =
    (pids, spawns, few, waits, λ p. absurd (cc))
LeavesOne-continue w (panicked, v) next (pids, spawns, few, waits, leaves) k =
    (pids, spawns, few, waits, λ p. absurd (cc))
LeavesOne-continue w (exhausted, v) next (pids, spawns, few, waits, leaves) k =
    (pids, spawns, few, waits, λ p. absurd (cc))

record Leaves (m : Act (Unit {0})) : Type 0 where
  holds : (w : World) → LeavesOne w (m w)

bind-Leaves :
    {A : Type 0} {m : Act A} {f : A → Act (Unit {0})}
    → Within SameChildren m
    → ((a : A) → Leaves (f a))
    → Leaves (m >>= f)
bind-Leaves {m} {f} h k = record {
  holds = λ w. continue-LeavesOne w (m w) f (h.holds w) (λ a. (k a).holds);
}

-- Plain steps before.
plain-Leaves : (m k : Act (Unit {0})) → Within SameChildren m → Leaves k → Leaves (m >> k)
plain-Leaves m k h l = bind-Leaves h (λ _. l)

-- Plain steps after.
Leaves-plain : (m k : Act (Unit {0})) → Leaves m → Within SameChildren k → Leaves (m >> k)
Leaves-plain m k h l = record { holds = λ w. LeavesOne-continue w (m w) k (h.holds w) l }

-- What is done with a child that was started before: it is leaked at the end.
LeavesPid : ℕ → World → Outcome (Unit {0}) × World → Type 0
LeavesPid pid w r =
    (r.1.spawned ≡ w.spawned)
    × (r.1.waited ≡ w.waited)
    × (r.0 ≡ done tt → r.1.forgotten ≡ w.forgotten ++ (pid ∷ []))

continue-LeavesPid :
    (pid : ℕ) (w : World) (r : Outcome (Unit {0}) × World) (next : Act (Unit {0}))
    → SameChildren w r.1
    → ((v : World) → LeavesPid pid v (next v))
    → LeavesPid pid w (continue r (λ _. next))
unfolding LeavesPid
continue-LeavesPid pid w (done tt, v) next (s, h, g) k =
    let (spawns, waits, leaves) = k v in
    (spawns ∙ s, waits ∙ h, λ e. leaves e ∙ ap (λ t. t ++ (pid ∷ [])) g)
continue-LeavesPid pid w (failed e, v) next (s, h, g) k = (s, h, λ p. absurd (cc))
continue-LeavesPid pid w (panicked, v) next (s, h, g) k = (s, h, λ p. absurd (cc))
continue-LeavesPid pid w (exhausted, v) next (s, h, g) k = (s, h, λ p. absurd (cc))

-- The child is started, if the operating system can.
with_context-LeavesOne :
    (q : Result ℕ Text) (message : Text) (w v : World) (f : ℕ → Act (Unit {0}))
    → v.spawned ≡ started q w.spawned
    → v.waited ≡ w.waited
    → v.forgotten ≡ w.forgotten
    → ((pid : ℕ) → LeavesPid pid v (f pid v))
    → LeavesOne w (continue (with_context q message v) f)
unfolding LeavesPid
with_context-LeavesOne (err e) message w v f s h g k = unspawned w v _ (s, h, g) (λ p. cc)
with_context-LeavesOne (ok pid) message w v f s h g k =
    let (spawns, waits, leaves) = k pid in
    (
      pid ∷ [],
      spawns ∙ s,
      omega arith,
      waits ∙ h,
      λ e. (pid, refl, leaves e ∙ ap (λ t. t ++ (pid ∷ [])) g),
    )

module _ (host : Host) (logoscore : Text) where
  abbrev children : IsFrame host SameChildren
  children = SameChildren-IsFrame host

  leave-LeavesPid : (pid : ℕ) (w : World) → LeavesPid pid w (leave_or_wait host pid true w)
  unfolding leave_or_wait LeavesPid
  leave-LeavesPid pid w = (refl, refl, λ _. refl)

  deploy_in-Leaves :
      (dir : Text)
      → Leaves (
          spawn_daemon host logoscore dir >>= λ pid.
          bring_up host logoscore dir pid >> leave_or_wait host pid true)
  unfolding spawn_daemon
  deploy_in-Leaves dir = record {
    holds = λ w.
        let cmd = logoscore ∷ lit "-D" ∷ lit "-m" ∷ dir ∷ [] in
        with_context-LeavesOne (host.spawn w.ran cmd) _ w (spawn host cmd w).1 _ refl refl refl
          (λ pid.
            continue-LeavesPid pid (spawn host cmd w).1
              (bring_up host logoscore dir pid (spawn host cmd w).1) (leave_or_wait host pid true)
              ((bring_up-Within children logoscore dir pid).holds _) (leave-LeavesPid pid));
  }

  deploy-Leaves :
      (dir : Text)
      → Leaves (cmd_deploy host logoscore (record { modules_dir = dir; detach = true }))
  unfolding cmd_deploy
  deploy-Leaves dir =
      bind-Leaves (with_context-Within children (host.canonicalize dir) (not_found dir)) (λ real.
        plain-Leaves _ _
          (print-Within children (
            to_stdout
              (lit "[agent-cli] Starting Logos Core daemon (modules: " ++ (real ++ lit ") …"))))
          (deploy_in-Leaves real))

  after_deploy-Within :
      (args : UpArgs) (c : ConfigureArgs)
      → Within SameChildren (
          cmd_configure host logoscore c
          >> (fund_if_given host logoscore args args.fund
              >> ((if not args.detach then up_hints else pure tt)
                  >> println (lit "[agent-cli] Agent is up."))))
  after_deploy-Within args c =
      then-Within children _ _ (cmd_configure-Within children logoscore c) (
        then-Within children _ _ (fund_if_given-Within children logoscore args args.fund) (
          then-Within children _ _
            (if-Within children (not args.detach) (up_hints-Within children logoscore)
              (pure-Within children tt))
            (print-Within children _)))

  up-Leaves : (args : UpArgs) → Leaves (cmd_up host logoscore args)
  unfolding cmd_up
  up-Leaves args =
      plain-Leaves _ _ (print-Within children _)
        (Leaves-plain _ _ (deploy-Leaves args.modules_dir) (after_deploy-Within args _))

  -- `agent up` starts at most one child and waits for none, with and without `--detach` and
  -- however it ends; if it succeeds, it has started exactly one, and leaked it.
  pub cmd_up-LeavesOne : (args : UpArgs) (w : World) → LeavesOne w (cmd_up host logoscore args w)
  cmd_up-LeavesOne args w = (up-Leaves args).holds w
