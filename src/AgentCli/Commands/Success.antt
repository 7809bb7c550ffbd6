-- ===== src/AgentCli/Commands/Success.antt =====
-- With a daemon that comes up, `agent deploy` succeeds.
pub mod Configured
use mathlib.Core.Path.{subst}
use lp_0008_logos_agent_modu.Base.{
  append_assoc, append-nil, ap, sym, inl, inr, ℕ, ◌+◌, ◌*◌, ◌≤◌, ◌≡◌, refl, ◌∙◌, true, not, List,
  [], ◌∷◌, ◌++◌, arith, length, length-append, ok, Text, lit,
}
use lp_0008_logos_agent_modu.AgentCli.World.{
  Output, DirEntry, CommandLine, Host, World, to_stdout, Outcome, done, failed, ◌>>=◌, ◌>>◌,
  println,
}
use lp_0008_logos_agent_modu.AgentCli.World.Frame.{IsFrame, IsPlain, asks_status}
use lp_0008_logos_agent_modu.AgentCli.World.Success.{
  Succeeds, bind-Succeeds, then-Succeeds, with_context-Succeeds, Keeps, Within-Succeeds,
}
use lp_0008_logos_agent_modu.AgentCli.Modules.Order.{
  Runnable, agent_last, load_commands, load_all_modules_lem,
}
use lp_0008_logos_agent_modu.AgentCli.Modules.Framed.{load_all_modules-Within}
use lp_0008_logos_agent_modu.AgentCli.Wait.Poll.{Ended}
use lp_0008_logos_agent_modu.AgentCli.Modules.{directory_names, load_all_modules}
use lp_0008_logos_agent_modu.AgentCli.Wait.{says_running, wait_for_capability, wait_for_daemon}
use lp_0008_logos_agent_modu.AgentCli.Wait.Guarantees.{
  accepted, meta_status_call, LastAnswer, SaysRunning, wait_for_capability_lem,
  wait_for_capability-Within, wait_for_daemon-Within,
}
use lp_0008_logos_agent_modu.AgentCli.Wait.Liveness.{
  status_command, polls, wait_for_capability_ready, wait_for_daemon_ready,
}
use lp_0008_logos_agent_modu.AgentCli.Commands.{
  not_found, spawn_daemon, leave_or_wait, bring_up, cmd_deploy,
}
use lp_0008_logos_agent_modu.AgentCli.Commands.Framed.{spawn_daemon-Within}

-- `status` would print `"running"` now.
abbrev pub IsUp : Host → Text → List CommandLine → Type 0
IsUp host logoscore before = says_running (host.run before (logoscore ∷ lit "status" ∷ [])) ≡ true

abbrev pub spawn_command : Text → Text → CommandLine
spawn_command logoscore dir = logoscore ∷ lit "-D" ∷ lit "-m" ∷ dir ∷ []

-- The modules were loaded one after the other, by a daemon that was up.
abbrev pub Loaded : Host → Text → List Text → List CommandLine → Type 0
Loaded host logoscore names ran =
    (before after : List CommandLine) × (ran ≡ before ++ (load_commands logoscore names ++ after))
    × IsUp host logoscore before

-- The host of a daemon that comes up: its commands can be run, and `status` takes at most `d`
-- milliseconds. Once the daemon was spawned and `status` was asked `n` times, it prints `"running"`,
-- and what the tool runs then leaves it so. Once the modules were loaded, the agent answers. The
-- modules directory is there, and processes can be spawned.
pub record Serves (host : Host) (logoscore : Text) (n d : ℕ) (modules_dir : Text) : Type 0 where
  pub real_dir : Text
  pub is_there : host.canonicalize modules_dir ≡ ok real_dir
  pub entries : List DirEntry
  pub lists : host.read_dir real_dir ≡ ok entries
  pub runs : Runnable host logoscore
  pub spawns :
      (before : List CommandLine)
      → (pid : ℕ) × (host.spawn before (spawn_command logoscore real_dir) ≡ ok pid)
  pub quick :
      (before : List CommandLine) → host.duration_ms before (status_command host logoscore) ≤ d
  pub comes_up :
      (before : List CommandLine) (m : ℕ)
      → n ≤ m
      → IsUp host logoscore
          (before ++ (spawn_command logoscore real_dir ∷ []) ++ polls host logoscore m)
  pub stays_up :
      (before : List CommandLine) {bin : Text} {cmd : CommandLine}
      → IsPlain bin cmd
      → IsUp host logoscore before
      → IsUp host logoscore (before ++ (cmd ∷ []))
  pub answers :
      (before : List CommandLine)
      → IsUp host logoscore before
      → Loaded host logoscore (agent_last (directory_names entries)) before
      → accepted (host.run before (meta_status_call host logoscore)) ≡ true

-- Printing leaves what depends on the commands.
says :
    (P : List CommandLine → Type 0) (s : Text) → Succeeds (λ w. P w.ran) (λ w. P w.ran) (println s)
says P s = record { from = λ w p. (tt, refl, p) }

module _ (host : Host) (logoscore : Text) (n d : ℕ) (modules_dir : Text)
    (serves : Serves host logoscore n d modules_dir) (in_time : n * (d + 500) ≤ 30_000) where
  abbrev pub names : List Text
  names = agent_last (directory_names serves.entries)

  -- What was up stays up, and what was loaded stays loaded.
  abbrev pub Onward : World → World → Type 0
  Onward w v =
      (IsUp host logoscore w.ran → IsUp host logoscore v.ran)
      × (Loaded host logoscore names w.ran → Loaded host logoscore names v.ran)

  pub Loaded-append :
      (ran : List CommandLine) (cmd : CommandLine)
      → Loaded host logoscore names ran
      → Loaded host logoscore names (ran ++ (cmd ∷ []))
  Loaded-append ran cmd (before, after, e, up) = (
    before,
    after ++ (cmd ∷ []),
    ap (λ t. t ++ (cmd ∷ [])) e
        ∙ append_assoc before _ _
        ∙ ap (λ t. before ++ t) (append_assoc (load_commands logoscore names) after _),
    up,
  )

  abbrev pub frame : IsFrame host Onward
  frame = record {
    keep = λ w. (λ h. h, λ h. h);
    chain = λ u v w h k. (λ p. k.0 (h.0 p), λ p. k.1 (h.1 p));
    prints = λ line w. (λ h. h, λ h. h);
    runs = λ p w. (serves.stays_up w.ran p, Loaded-append w.ran _);
    sleeps = λ ms w. (λ h. h, λ h. h);
  }

  abbrev pub Any : World → Type 0
  Any w = Unit

  -- The daemon was the last that was started.
  abbrev pub Spawned : List CommandLine → Type 0
  Spawned ran =
      (before : List CommandLine) × (ran ≡ before ++ (spawn_command logoscore serves.real_dir ∷ []))

  abbrev pub Up : World → Type 0
  Up w = IsUp host logoscore w.ran

  abbrev pub Ready : World → Type 0
  Ready w = IsUp host logoscore w.ran × Loaded host logoscore names w.ran

  Up-kept : Keeps Onward Up
  Up-kept u v h up = h.0 up

  pub Ready-kept : Keeps Onward Ready
  Ready-kept u v h (up, loaded) = (h.0 up, h.1 loaded)

  pub say : (s : Text) → Succeeds Any Any (println s)
  say s = says (λ ran. Unit) s

  pub say-Ready : (s : Text) → Succeeds Ready Ready (println s)
  say-Ready s = says (λ ran. IsUp host logoscore ran × Loaded host logoscore names ran) s

  spawn-Succeeds : Succeeds Any (λ w. Spawned w.ran) (spawn_daemon host logoscore serves.real_dir)
  unfolding spawn_daemon
  spawn-Succeeds = record {
    from = λ w _. let (pid, e) = serves.spawns w.ran in (pid, rw e refl, (w.ran, rw e refl));
  }

  LastAnswer-IsUp :
      (w : World)
      → LastAnswer host (logoscore ∷ lit "status" ∷ []) SaysRunning w
      → IsUp host logoscore w.ran
  unfolding says_running
  LastAnswer-IsUp w (before, o, ran, answer, says) =
      rw ran (serves.stays_up before asks_status (rw answer says))

  Ended-IsUp :
      (message : Text) (start : ℕ) (r : Outcome (Unit {0}) × World)
      → Ended (LastAnswer host (logoscore ∷ lit "status" ∷ []) SaysRunning) 30_000 message start r
      → r.0 ≡ done tt
      → IsUp host logoscore r.1.ran
  Ended-IsUp message start r (inl (e, last)) h = LastAnswer-IsUp r.1 last
  Ended-IsUp message start r (inr (e, late)) h =
      let no_way : done tt ≡ failed (message ∷ []) = sym h ∙ e in absurd (cc)

  capability-Succeeds : Succeeds (λ w. Spawned w.ran) Up (wait_for_capability host logoscore)
  capability-Succeeds = record {
    from = λ w (before, e).
        let r = wait_for_capability host logoscore w in
        let ended =
          wait_for_capability_ready host logoscore n d w (λ m. serves.quick _)
            (λ m h. rw e (serves.comes_up before m h)) in_time in
        (
          tt,
          ended,
          Ended-IsUp (lit "daemon did not start within 30s") w.now_ms r
              (wait_for_capability_lem host logoscore w) ended,
        );
  }

  load-Succeeds : Succeeds Up Ready (load_all_modules host logoscore serves.real_dir)
  load-Succeeds = record {
    from = λ w up.
        let (ended, ran) =
          load_all_modules_lem host logoscore serves.runs serves.real_dir w serves.lists in
        let kept = (load_all_modules-Within frame logoscore serves.real_dir).holds w in
        (
          tt,
          ended,
          (
            kept.0 up,
            (
              w.ran,
              [],
              ran ∙ ap (λ t. w.ran ++ t) (sym (append-nil (load_commands logoscore names))),
              up,
            ),
          ),
        );
  }

  daemon-Succeeds : Succeeds Ready Ready (wait_for_daemon host logoscore)
  daemon-Succeeds =
      Within-Succeeds frame Ready-kept (wait_for_daemon-Within host logoscore frame)
        (λ w (up, loaded).
          (tt, wait_for_daemon_ready host logoscore w (serves.answers w.ran up loaded)))

  bring_up-Succeeds :
      (pid : ℕ) → Succeeds (λ w. Spawned w.ran) Ready (bring_up host logoscore serves.real_dir pid)
  unfolding bring_up
  bring_up-Succeeds pid = then-Succeeds _ _ (says Spawned _) (
      then-Succeeds _ _ capability-Succeeds (
        then-Succeeds _ _ (says (IsUp host logoscore) _) (
          then-Succeeds _ _ (says (IsUp host logoscore) _) (
            then-Succeeds _ _ load-Succeeds (
              then-Succeeds _ _ (say-Ready _) (
                then-Succeeds _ _ (say-Ready _)
                  (then-Succeeds _ _ daemon-Succeeds (say-Ready _))))))))

  leave-Succeeds : (pid : ℕ) → Succeeds Ready Ready (leave_or_wait host pid true)
  unfolding leave_or_wait
  leave-Succeeds pid = record { from = λ w ready. (tt, refl, ready) }

  deploy_in-Succeeds : Succeeds Any Ready (
      spawn_daemon host logoscore serves.real_dir >>= λ pid.
      bring_up host logoscore serves.real_dir pid >> leave_or_wait host pid true)
  deploy_in-Succeeds =
      bind-Succeeds spawn-Succeeds
        (λ pid. then-Succeeds _ _ (bring_up-Succeeds pid) (leave-Succeeds pid))

  pub cmd_deploy-Succeeds :
      Succeeds Any Ready
        (cmd_deploy host logoscore (record { modules_dir = modules_dir; detach = true }))
  unfolding cmd_deploy
  cmd_deploy-Succeeds =
      with_context-Succeeds (not_found modules_dir) _ serves.is_there
        (then-Succeeds _ _ (say _) deploy_in-Succeeds)
