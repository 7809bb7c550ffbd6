-- ===== src/AgentCli/Commands/Exit.antt =====
-- With which code `main` of agent-cli exits, and what it prints.
use lp_0008_logos_agent_modu.Base.{
  ℕ, ◌≡◌, refl, ap, ◌⊎◌, inl, inr, true, some, List, [], ◌∷◌, ◌++◌, ok, false, Text, lit,
}
use lp_0008_logos_agent_modu.AgentCli.World.{
  Output, Host, World, Error, Line, to_stderr, Outcome, done, failed, panicked, exhausted,
}
use lp_0008_logos_agent_modu.AgentCli.World.Frame.{Returns}
use lp_0008_logos_agent_modu.AgentCli.JsonStr.{json_str}
use lp_0008_logos_agent_modu.AgentCli.CallExpr.Plain.{Plain}
use lp_0008_logos_agent_modu.Std.Strings.{contains, contains-prefix}
use lp_0008_logos_agent_modu.AgentCli.Commands.{fund, Cli, run, alternate, report, main}
use lp_0008_logos_agent_modu.AgentCli.Commands.Ends.{run-Returns}
use lp_0008_logos_agent_modu.AgentCli.Commands.Secrets.{fund_command, cmd_fund_leaks}

abbrev pub error_line : Error → Line
error_line e = to_stderr (lit "error: " ++ alternate e)

-- The end of the process, by what the subcommand came to.
abbrev pub Reports : Outcome (Unit {0}) × World → ℕ × World → Type 0
Reports r (code, w) =
    ((r.0 ≡ done tt) × (code ≡ 0) × (w ≡ r.1))
    ⊎ (((e : Error) × (r.0 ≡ failed e)
          × (code ≡ 1)
          × (w ≡ record r.1 { printed = r.1.printed ++ (error_line e ∷ []) }))
        ⊎ ((r.0 ≡ panicked) × (code ≡ 101) × (w ≡ r.1)))

report-Reports : (r : Outcome (Unit {0}) × World) → Returns r → Reports r (report r)
unfolding report
report-Reports (done tt, w) ends = inl (refl, refl, refl)
report-Reports (failed e, w) ends = inr (inl (e, refl, refl, refl))
report-Reports (panicked, w) ends = inr (inr (refl, refl, refl))
report-Reports (exhausted, w) ends = absurd ends

-- Every run of the tool comes to an end if the commands that it runs do, no polling loop needing
-- more rounds than its timeout allows: it exits with 0 after a success and prints nothing more,
-- with 1 after any error, whose contexts and cause it prints, and with 101 after a panic.
pub main-Reports :
    (host : Host) (cli : Cli) (w : World) → Reports (run host cli w) (main host cli w)
unfolding main
main-Reports host cli w = report-Reports (run host cli w) (run-Returns host cli w)

report_failed :
    (r : Outcome (Unit {0}) × World) (message : Text)
    → r.0 ≡ failed (message ∷ [])
    → ((report r).0 ≡ 1)
      × ((report r).1.printed ≡ r.1.printed ++ (to_stderr (lit "error: " ++ message) ∷ []))
unfolding report
report_failed (done a, w) message h = absurd (cc)
report_failed (failed e, w) message h =
    let same : e ≡ message ∷ [] = cc in (refl, ap (λ e'. w.printed ++ (error_line e' ∷ [])) same)
report_failed (panicked, w) message h = absurd (cc)
report_failed (exhausted, w) message h = absurd (cc)

abbrev pub fund_cli : (logoscore passphrase amount dir : Text) → Cli
fund_cli logoscore passphrase amount dir = record {
  logoscore = logoscore;
  command = fund (record { amount = amount; passphrase = some passphrase; modules_dir = dir });
}

module _ (host : Host) (logoscore passphrase amount dir : Text) where
  -- If `logoscore` exits with a failure, `agent fund` exits with 1, and the last line that it prints,
  -- on the standard error, holds the passphrase as a JSON literal. The passphrase and the amount
  -- hold no comma and no control character, and the modules directory is there.
  pub main_leaks :
      (w : World) {real_dir : Text} {o : Output}
      → host.canonicalize dir ≡ ok real_dir
      → Plain passphrase
      → Plain amount
      → host.run w.ran (fund_command logoscore passphrase amount) ≡ ok o
      → o.success ≡ false
      → let cli = fund_cli logoscore passphrase amount dir in
        (said : Text) × (before : List Line) × ((main host cli w).0 ≡ 1)
        × ((main host cli w).1.printed ≡ before ++ (to_stderr said ∷ []))
        × (contains (json_str passphrase) said ≡ true)
  unfolding main run
  main_leaks w hd pp pa hr hf =
      let cli = fund_cli logoscore passphrase amount dir in
      let (message, failure, leak) =
        cmd_fund_leaks host logoscore passphrase amount dir w hd pp pa hr hf in
      let (code, last) = report_failed (run host cli w) message failure in
      (
        lit "error: " ++ message,
        (run host cli w).1.printed,
        code,
        last,
        contains-prefix (json_str passphrase) (lit "error: ") message leak,
      )
