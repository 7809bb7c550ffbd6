-- ===== src/AgentCli/Commands.antt =====
-- The subcommands of agent-cli/src/main.rs and `run`.
pub mod Args
pub mod Framed
pub mod Ends
pub mod Configure
pub mod Secrets
pub mod Exit
pub mod Up
pub mod Success
pub mod Diagram
pub use Args.*
use lp_0008_logos_agent_modu.Base.{
  ℕ, ◌+◌, ◌-◌, ◌*◌, ◌/◌, Bool, true, false, not, Option, none, some, List, [], ◌∷◌, ◌++◌,
  if◌then◌else◌, All, Result, Text, lit,
}
use lp_0008_logos_agent_modu.AgentCli.World.{
  Output, Host, World, to_stderr, Error, Outcome, done, failed, panicked, exhausted, Act, pure,
  bail, ◌>>=◌, ◌>>◌, with_context, print, println, spawn,
}
use lp_0008_logos_agent_modu.AgentCli.CallExpr.{call_expr, fund_call_expr}
use lp_0008_logos_agent_modu.AgentCli.Calls.{logos_call}
use lp_0008_logos_agent_modu.AgentCli.Modules.{load_all_modules}
use lp_0008_logos_agent_modu.AgentCli.Wait.{wait_for_capability, wait_for_daemon}
use lp_0008_logos_agent_modu.Std.Decimal.{to_string}

-- `std::mem::forget(child)`
abbrev pub forget : ℕ → Act (Unit {0})
forget pid w = (done tt, record w { forgotten = w.forgotten ++ (pid ∷ []) })

-- `args.passphrase.as_deref().unwrap_or("")`
abbrev pub unwrap_or_empty : Option Text → Text
unwrap_or_empty none = []
unwrap_or_empty (some s) = s

abbrev pub not_found : Text → Text
not_found dir = lit "modules-dir not found: " ++ dir

abbrev pub pairs_of : ConfigureArgs → List (Text × Text)
pairs_of args =
    (lit "owner_address", args.owner)
    ∷ (lit "per_tx_limit", args.per_tx_limit)
    ∷ (lit "per_period_limit", args.per_period_limit)
    ∷ (lit "period_seconds", args.period_seconds)
    ∷ []

abbrev pub up_hints : Act (Unit {0})
up_hints = do
  println (lit "[agent-cli] Up complete. Daemon detached (PID unknown at this point).")
  println (lit "[agent-cli] Use `agent status` to check agent health.")

-- The lines before the call. The passphrase is shown as three stars.
unfoldable pub announce_fund : Text → Act (Unit {0})
announce_fund amount = do
  println (lit "[agent-cli] Funding agent shielded account (amount: " ++ (amount ++ lit ") …"))
  println (lit "[agent-cli] Call expression: " ++ fund_call_expr (lit "***") amount)
  println (
      lit
        "[agent-cli] TODO (runtime milestone): verify this call expression against `logoscore -l lez_wallet_module -c \"help()\"` once the wallet module is loaded. Update fund_call_expr() in src/main.rs if the method name differs.")

module _ (host : Host) where
  -- `child.wait()`
  abbrev pub wait : ℕ → Act (Result Output Text)
  wait pid w = (done (host.wait pid), record w { waited = w.waited ++ (pid ∷ []) })

  unfoldable pub wait_for_child : ℕ → Act (Unit {0})
  wait_for_child pid = do
    answer ← wait pid
    o ← with_context answer (lit "failed to wait for daemon process")
    if not o.success then bail (lit "daemon exited with status " ++ o.status) else pure tt

  unfoldable pub spawn_daemon : Text → Text → Act ℕ
  spawn_daemon logoscore modules_dir = do
    answer ← spawn host (logoscore ∷ lit "-D" ∷ lit "-m" ∷ modules_dir ∷ [])
    with_context answer (lit "failed to spawn logoscore daemon: " ++ logoscore)

  -- The last step of a deployment: the child is leaked, or waited for.
  unfoldable pub leave_or_wait : ℕ → Bool → Act (Unit {0})
  leave_or_wait pid true = do
    println
        (lit "[agent-cli] Daemon running in background (PID " ++ (to_string pid ++ lit "). Done."))
    forget pid
  leave_or_wait pid false = do
    println (
        lit "[agent-cli] Keeping daemon in foreground (PID "
        ++ (to_string pid ++ lit "). Ctrl-C to stop."))
    wait_for_child pid

  -- From the spawned daemon to the module that answers.
  unfoldable pub bring_up : Text → Text → ℕ → Act (Unit {0})
  bring_up logoscore modules_dir pid = do
    println (lit "[agent-cli] Waiting for daemon to become ready …")
    wait_for_capability host logoscore
    println (lit "[agent-cli] Daemon ready (PID " ++ (to_string pid ++ lit ")."))
    println (lit "[agent-cli] Loading modules from " ++ (modules_dir ++ lit " …"))
    load_all_modules host logoscore modules_dir
    println (lit "[agent-cli] All modules loaded.")
    println (lit "[agent-cli] Waiting for agent_module to respond …")
    wait_for_daemon host logoscore
    println (lit "[agent-cli] agent_module loaded and responding.")

  unfoldable pub cmd_deploy : Text → DeployArgs → Act (Unit {0})
  cmd_deploy logoscore args = do
    modules_dir ← with_context (host.canonicalize args.modules_dir) (not_found args.modules_dir)
    println (lit "[agent-cli] Starting Logos Core daemon (modules: " ++ (modules_dir ++ lit ") …"))
    pid ← spawn_daemon logoscore modules_dir
    bring_up logoscore modules_dir pid
    leave_or_wait pid args.detach

  unfoldable pub configure_pair : Text → Text → Text → Act (Unit {0})
  configure_pair logoscore key value = do
    println (lit "[agent-cli] meta_configure(" ++ (key ++ (lit " = " ++ (value ++ lit ")"))))
    _ ←
        logos_call host logoscore (lit "agent_module") (call_expr (lit "meta_configure") key value)
          false
    pure tt

  -- `for (key, value) in &pairs`
  unfoldable pub configure_pairs : Text → List (Text × Text) → Act (Unit {0})
  configure_pairs logoscore [] = pure tt
  configure_pairs logoscore ((key, value) ∷ pairs) =
      configure_pair logoscore key value >> configure_pairs logoscore pairs

  unfoldable pub cmd_configure : Text → ConfigureArgs → Act (Unit {0})
  cmd_configure logoscore args = do
    modules_dir ← with_context (host.canonicalize args.modules_dir) (not_found args.modules_dir)
    configure_pairs logoscore (pairs_of args)
    println (lit "[agent-cli] Configuration complete.")

  unfoldable pub cmd_fund : Text → FundArgs → Act (Unit {0})
  cmd_fund logoscore args = do
    modules_dir ← with_context (host.canonicalize args.modules_dir) (not_found args.modules_dir)
    announce_fund args.amount
    _ ←
        logos_call host logoscore (lit "lez_wallet_module")
          (fund_call_expr (unwrap_or_empty args.passphrase) args.amount) false
    println (lit "[agent-cli] Fund call submitted.")

  unfoldable pub cmd_status : Text → StatusArgs → Act (Unit {0})
  cmd_status logoscore args = do
    modules_dir ← with_context (host.canonicalize args.modules_dir) (not_found args.modules_dir)
    println (lit "[agent-cli] Fetching agent status …")
    answer ← logos_call host logoscore (lit "agent_module") (lit "meta_status()") false
    println answer

  unfoldable pub fund_if_given : Text → UpArgs → Option Text → Act (Unit {0})
  fund_if_given logoscore args none = pure tt
  fund_if_given logoscore args (some amount) =
      cmd_fund logoscore
        (record { amount = amount; passphrase = args.passphrase; modules_dir = args.modules_dir })

  unfoldable pub cmd_up : Text → UpArgs → Act (Unit {0})
  cmd_up logoscore args = do
    println (lit "[agent-cli] Starting 'up' sequence (deploy + configure) …")
    cmd_deploy logoscore (record { modules_dir = args.modules_dir; detach = true })
    cmd_configure logoscore (record {
      owner = args.owner;
      per_tx_limit = args.per_tx_limit;
      per_period_limit = args.per_period_limit;
      period_seconds = args.period_seconds;
      modules_dir = args.modules_dir;
    })
    fund_if_given logoscore args args.fund
    if not args.detach then up_hints else pure tt
    println (lit "[agent-cli] Agent is up.")

  unfoldable pub run : Cli → Act (Unit {0})
  run cli = elim cli.command [
    | deploy args ↦ cmd_deploy cli.logoscore args
    | configure args ↦ cmd_configure cli.logoscore args
    | fund args ↦ cmd_fund cli.logoscore args
    | status args ↦ cmd_status cli.logoscore args
    | up args ↦ cmd_up cli.logoscore args
  ]

-- `{e:#}`: the contexts and the cause, with colons between them.
abbrev pub alternate : Error → Text
alternate [] = []
alternate (m ∷ []) = m
alternate (m ∷ n ∷ ms) = m ++ (lit ": " ++ alternate (n ∷ ms))

-- What `main` makes of the result: the exit code, or a panic's 101, and the lines.
unfoldable report : Outcome (Unit {0}) × World → ℕ × World
report (done _, w) = (0, w)
report (failed e, w) = (1, (print (to_stderr (lit "error: " ++ alternate e)) w).1)
report (panicked, w) = (101, w)
report (exhausted, w) = (101, w)

unfoldable pub main : Host → Cli → World → ℕ × World
unfolding report
main host cli w = report (run host cli w)
