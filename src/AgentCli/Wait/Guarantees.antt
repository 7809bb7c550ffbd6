-- ===== src/AgentCli/Wait/Guarantees.antt =====
-- What the two waits guarantee.
use lp_0008_logos_agent_modu.Base.{
  ℕ, ◌+◌, ◌≡◌, refl, sym, inl, inr, Bool, true, false, not, ◌&&◌, List, [], ◌∷◌, ◌++◌, arith,
  Result, ok, err, Text, lit,
}
use lp_0008_logos_agent_modu.AgentCli.World.{
  Output, CommandLine, Host, World, Outcome, done, failed, panicked, exhausted,
}
use lp_0008_logos_agent_modu.AgentCli.World.Frame.{
  asks_status, IsFrame, Within, bind-Within, pure-Within, output-Within, Returns, Total,
  NoEarlier-IsFrame,
}
use lp_0008_logos_agent_modu.AgentCli.CallExpr.{parse_call_expr-meta_status}
use lp_0008_logos_agent_modu.AgentCli.Calls.{is_error_response, logos_call}
use lp_0008_logos_agent_modu.AgentCli.Calls.Framed.{logos_call-Within}
use lp_0008_logos_agent_modu.AgentCli.Wait.{
  says_running, attempt, probe_capability, wait_for_capability, probe_daemon, wait_for_daemon,
}
use lp_0008_logos_agent_modu.AgentCli.Wait.Poll.{
  fuel_for, Answers, Ended, poll_until-Ended, poll_until-Within,
}
use lp_0008_logos_agent_modu.Std.Strings.{contains}
use mathlib.Core.Path.{subst}

attempt-world : (r : Outcome Text × World) → (attempt r).1 ≡ r.1
unfolding attempt
attempt-world (done s, w) = refl
attempt-world (failed e, w) = refl
attempt-world (panicked, w) = refl
attempt-world (exhausted, w) = refl

-- The last command was answered, in a way that the predicate accepts.
abbrev pub LastAnswer : Host → CommandLine → (Output → Type 0) → World → Type 0
LastAnswer host cmd Accepts w =
    (before : List CommandLine) × (o : Output) × (w.ran ≡ before ++ (cmd ∷ []))
    × (host.run before cmd ≡ ok o)
    × Accepts o

abbrev pub SaysRunning : Output → Type 0
SaysRunning o = contains (lit "\"running\"") o.stdout ≡ true

abbrev pub IsGood : Output → Type 0
IsGood o = (o.success ≡ true) × (is_error_response o.stdout ≡ false)

says_running-ok :
    (r : Result Output Text) → says_running r ≡ true → (o : Output) × (r ≡ ok o) × SaysRunning o
unfolding says_running
says_running-ok (ok o) h = (o, refl, h)
says_running-ok (err e) h = absurd (cc)

abbrev pub accepted : Result Output Text → Bool
accepted (ok o) = o.success && not (is_error_response o.stdout)
accepted (err e) = false

accepted-ok : (r : Result Output Text) → accepted r ≡ true → (o : Output) × (r ≡ ok o) × IsGood o
accepted-ok (ok o) h = (o, refl, ground arith)
accepted-ok (err e) h = absurd (cc)

module _ (host : Host) (logoscore : Text) where
  module _ {R : World → World → Type 0} (fr : IsFrame host R) where
    probe_capability-Within : Within R (probe_capability host logoscore)
    unfolding probe_capability
    probe_capability-Within =
        bind-Within fr (output-Within fr {bin = logoscore} asks_status)
          (λ answer. pure-Within fr (says_running answer))

    probe_daemon-Within : Within R (probe_daemon host logoscore)
    unfolding probe_daemon
    probe_daemon-Within = record {
      holds = λ w.
          let call = logos_call host logoscore (lit "agent_module") (lit "meta_status()") true in
          subst (R w) (sym (attempt-world (call w))) (
            (logos_call-Within fr logoscore (lit "agent_module") (lit "meta_status()") true).holds
              w);
    }

    pub wait_for_capability-Within : Within R (wait_for_capability host logoscore)
    unfolding wait_for_capability
    wait_for_capability-Within = poll_until-Within fr 30_000 _ _ probe_capability-Within

    pub wait_for_daemon-Within : Within R (wait_for_daemon host logoscore)
    unfolding wait_for_daemon
    wait_for_daemon-Within = poll_until-Within fr 60_000 _ _ probe_daemon-Within

  probe_capability-Answers : Answers (probe_capability host logoscore)
  unfolding probe_capability
  probe_capability-Answers w = (says_running (host.run w.ran (logoscore ∷ lit "status" ∷ [])), refl)

  probe_capability_ready :
      (w : World)
      → (probe_capability host logoscore w).0 ≡ done true
      → LastAnswer host
          (logoscore ∷ lit "status" ∷ [])
          SaysRunning
          (probe_capability host logoscore w).1
  unfolding probe_capability
  probe_capability_ready w h =
      let (o, e, r) = says_running-ok (host.run w.ran (logoscore ∷ lit "status" ∷ [])) (cc) in
      (w.ran, o, refl, e, r)

  -- `wait_for_capability` always comes to an end. It succeeds only if the last `status` command
  -- printed `"running"`, and it fails only with its message, after more than 30 seconds.
  pub wait_for_capability_lem :
      (w : World)
      → Ended
          (LastAnswer host (logoscore ∷ lit "status" ∷ []) SaysRunning)
          30_000
          (lit "daemon did not start within 30s")
          w.now_ms
          (wait_for_capability host logoscore w)
  unfolding wait_for_capability
  wait_for_capability_lem w =
      poll_until-Ended (LastAnswer host (logoscore ∷ lit "status" ∷ []) SaysRunning) 30_000 _
        w.now_ms (probe_capability host logoscore)
        (probe_capability-Within (NoEarlier-IsFrame host)) probe_capability-Answers
        probe_capability_ready (fuel_for 30_000) w (omega arith) (omega arith) (omega arith)

  abbrev pub meta_status_call : CommandLine
  meta_status_call = logoscore ∷ lit "call" ∷ lit "agent_module" ∷ lit "meta_status" ∷ []

  pub probe_daemon_lem :
      (w : World)
      → ((probe_daemon host logoscore w).0 ≡ done (accepted (host.run w.ran meta_status_call)))
        × ((probe_daemon host logoscore w).1.ran ≡ w.ran ++ (meta_status_call ∷ []))
        × ((probe_daemon host logoscore w).1.now_ms
            ≡ w.now_ms + host.duration_ms w.ran meta_status_call)
  unfolding probe_daemon attempt logos_call
  probe_daemon_lem w = ground (arith, parse_call_expr-meta_status)

  probe_daemon-Answers : Answers (probe_daemon host logoscore)
  probe_daemon-Answers w = (accepted (host.run w.ran meta_status_call), (probe_daemon_lem w).0)

  probe_daemon_ready :
      (w : World)
      → (probe_daemon host logoscore w).0 ≡ done true
      → LastAnswer host
          (logoscore ∷ lit "call" ∷ lit "agent_module" ∷ lit "meta_status" ∷ [])
          IsGood
          (probe_daemon host logoscore w).1
  probe_daemon_ready w h =
      let (answer, trace, _) = probe_daemon_lem w in
      let (o, e, good) = accepted-ok (host.run w.ran meta_status_call) (cc) in
      (w.ran, o, trace, e, good)

  -- `wait_for_daemon` always comes to an end. It succeeds only if the last call of `meta_status`
  -- exited with success and gave no error response, and it fails only with its message, after more
  -- than 60 seconds.
  pub wait_for_daemon_lem :
      (w : World)
      → Ended
          (LastAnswer host
            (logoscore ∷ lit "call" ∷ lit "agent_module" ∷ lit "meta_status" ∷ [])
            IsGood)
          60_000
          (lit "daemon did not become ready within 60s")
          w.now_ms
          (wait_for_daemon host logoscore w)
  unfolding wait_for_daemon
  wait_for_daemon_lem w =
      poll_until-Ended (LastAnswer host meta_status_call IsGood) 60_000 _ w.now_ms
        (probe_daemon host logoscore) (probe_daemon-Within (NoEarlier-IsFrame host))
        probe_daemon-Answers probe_daemon_ready (fuel_for 60_000) w (omega arith) (omega arith)
        (omega arith)

Ended-Returns :
    (P : World → Type 0) (timeout : ℕ) (message : Text) (start : ℕ) (r : Outcome (Unit {0}) × World)
    → Ended P timeout message start r
    → Returns r
Ended-Returns P timeout message start (done a, w) h = tt
Ended-Returns P timeout message start (failed e, w) h = tt
Ended-Returns P timeout message start (panicked, w) h = tt
Ended-Returns P timeout message start (exhausted, w) (inl h) = absurd (cc)
Ended-Returns P timeout message start (exhausted, w) (inr h) = absurd (cc)

pub wait_for_capability-Total :
    (host : Host) (logoscore : Text) → Total (wait_for_capability host logoscore)
wait_for_capability-Total host logoscore = record {
  ends = λ w.
      Ended-Returns (LastAnswer host (logoscore ∷ lit "status" ∷ []) SaysRunning) _ _ _ _
        (wait_for_capability_lem host logoscore w);
}

pub wait_for_daemon-Total :
    (host : Host) (logoscore : Text) → Total (wait_for_daemon host logoscore)
wait_for_daemon-Total host logoscore = record {
  ends = λ w.
      Ended-Returns (LastAnswer host (meta_status_call host logoscore) IsGood) _ _ _ _
        (wait_for_daemon_lem host logoscore w);
}
