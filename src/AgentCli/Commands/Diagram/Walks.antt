-- ===== src/AgentCli/Commands/Diagram/Walks.antt =====
-- `agent up` walks through the diagram.
use mathlib.Core.Path.{subst}
use lp_0008_logos_agent_modu.Base.{
  ◌≡◌, refl, sym, ap, Bool, true, false, Option, List, [], ◌∷◌, ◌++◌, Result, ok, err, Text, lit,
}
use lp_0008_logos_agent_modu.AgentCli.World.{
  DirEntry, CommandLine, Host, World, Outcome, done, println,
}
use lp_0008_logos_agent_modu.AgentCli.World.Goes.{Goes, then-Goes, pure-Goes, always-Goes}
use lp_0008_logos_agent_modu.AgentCli.Wait.Poll.{fuel_for}
use lp_0008_logos_agent_modu.AgentCli.Wait.Arrival.{Probed, poll_until-Arrives}
use lp_0008_logos_agent_modu.AgentCli.Wait.{
  says_running, probe_capability, wait_for_capability, probe_daemon, wait_for_daemon,
}
use lp_0008_logos_agent_modu.AgentCli.Wait.Guarantees.{accepted, meta_status_call, probe_daemon_lem}
use lp_0008_logos_agent_modu.AgentCli.Modules.{
  load_module, load_each, load_all_modules, directory_names,
}
use lp_0008_logos_agent_modu.AgentCli.Modules.Order.{
  sort_by_key-agent_last, agent_last, load_module-ran,
}
use lp_0008_logos_agent_modu.AgentCli.Commands.Diagram.{
  Phase, waiting, loading, configuring, modules, Edge, asks, runs, loads, asks_agent, responds,
  Walk, next,
}

module _ (host : Host) (logoscore dir : Text) (pairs : List (Text × Text)) (passphrase : Text)
    (amount : Option Text) (start : List CommandLine) where
  -- The commands so far are a walk to this phase.
  abbrev pub At : Phase → World → Type 0
  At p w = Walk host logoscore dir pairs passphrase amount start w.ran p

  -- The commands so far are a walk.
  abbrev pub Somewhere : World → Type 0
  Somewhere w = (p : Phase) × At p w

  -- A step by a command.
  pub step :
      {p q : Phase} (cmd : CommandLine) (w v : World)
      → v.ran ≡ w.ran ++ (cmd ∷ [])
      → At p w
      → Edge host logoscore dir pairs passphrase amount w.ran p cmd q
      → At q v
  step {q} cmd w v h walk edge =
      subst (λ ran. Walk host logoscore dir pairs passphrase amount start ran q) (sym h)
        (next walk edge)

  pub stay : (p : Phase) (w : World) → At p w → Somewhere w
  stay p w walk = (p, walk)

  pub says : {p : Phase} (s : Text) → Goes Somewhere (At p) (At p) (println s)
  says {p} s = always-Goes (stay p) (λ w walk. walk)

  abbrev pub listed : List Text
  listed = modules host logoscore dir pairs passphrase amount

  abbrev status : CommandLine
  status = logoscore ∷ lit "status" ∷ []

  after_status :
      (b : Bool) (w v : World)
      → says_running (host.run w.ran status) ≡ b
      → v.ran ≡ w.ran ++ (status ∷ [])
      → At waiting w
      → Probed Somewhere (At waiting) (At (loading listed)) (done b, v)
  after_status true w v h e walk = step status w v e walk (runs h)
  after_status false w v h e walk = step status w v e walk asks

  probe_capability-Probed :
      (w : World)
      → At waiting w
      → Probed Somewhere (At waiting) (At (loading listed)) (probe_capability host logoscore w)
  unfolding probe_capability
  probe_capability-Probed w walk =
      after_status (says_running (host.run w.ran status)) w _ refl refl walk

  pub capability-Goes :
      Goes Somewhere (At waiting) (At (loading listed)) (wait_for_capability host logoscore)
  unfolding wait_for_capability
  capability-Goes = record {
    from = λ w walk.
        poll_until-Arrives Somewhere (At waiting) (At (loading listed)) 30_000 _ w.now_ms
          (stay waiting) (λ v h. h) (probe_capability host logoscore) probe_capability-Probed
          (fuel_for 30_000) w walk;
  }

  after_ask :
      (b : Bool) (w : World) (r : Outcome Bool × World)
      → accepted (host.run w.ran (meta_status_call host logoscore)) ≡ b
      → r.0 ≡ done b
      → r.1.ran ≡ w.ran ++ (meta_status_call host logoscore ∷ [])
      → At (loading []) w
      → Probed Somewhere (At (loading [])) (At (configuring pairs)) r
  after_ask true w r h d e walk =
      subst (λ o. Probed Somewhere (At (loading [])) (At (configuring pairs)) (o, r.1)) (sym d)
        (step (meta_status_call host logoscore) w r.1 e walk (responds h))
  after_ask false w r h d e walk =
      subst (λ o. Probed Somewhere (At (loading [])) (At (configuring pairs)) (o, r.1)) (sym d)
        (step (meta_status_call host logoscore) w r.1 e walk asks_agent)

  probe_daemon-Probed :
      (w : World)
      → At (loading []) w
      → Probed Somewhere (At (loading [])) (At (configuring pairs)) (probe_daemon host logoscore w)
  probe_daemon-Probed w walk =
      let (answer, trace, clock) = probe_daemon_lem host logoscore w in
      after_ask _ w (probe_daemon host logoscore w) refl answer trace walk

  pub daemon-Goes :
      Goes Somewhere (At (loading [])) (At (configuring pairs)) (wait_for_daemon host logoscore)
  unfolding wait_for_daemon
  daemon-Goes = record {
    from = λ w walk.
        poll_until-Arrives Somewhere (At (loading [])) (At (configuring pairs)) 60_000 _ w.now_ms
          (stay (loading [])) (λ v h. h) (probe_daemon host logoscore) probe_daemon-Probed
          (fuel_for 60_000) w walk;
  }

  load_module-Goes :
      (name : Text) (names : List Text)
      → Goes Somewhere
          (At (loading (name ∷ names)))
          (At (loading names))
          (load_module host logoscore name)
  load_module-Goes name names = always-Goes (stay (loading names)) (λ w walk.
      step (logoscore ∷ lit "load-module" ∷ name ∷ []) w (load_module host logoscore name w).1
        (load_module-ran host logoscore name w) walk loads)

  load_each-Goes :
      (names : List Text)
      → Goes Somewhere (At (loading names)) (At (loading [])) (load_each host logoscore names)
  unfolding load_each
  load_each-Goes [] = pure-Goes tt
  load_each-Goes (name ∷ names) = then-Goes _ _ (load_module-Goes name names) (load_each-Goes names)

  pub load_all-Goes :
      Goes Somewhere (At (loading listed)) (At (loading [])) (load_all_modules host logoscore dir)
  unfolding load_all_modules
  load_all-Goes = of_listing (host.read_dir dir) refl
    where
      of_listing :
          (r : Result (List DirEntry) Text)
          → host.read_dir dir ≡ r
          → Goes Somewhere
              (At (loading listed))
              (At (loading []))
              (load_all_modules host logoscore dir)
      of_listing (err e) h = rw h (record { from = λ w walk. stay (loading listed) w walk })
      of_listing (ok entries) h =
          let names = agent_last (directory_names entries) in
          let same : listed ≡ names =
            ap
              (λ (r : Result (List DirEntry) Text). elim r [
                | err e ↦ []
                | ok es ↦ agent_last (directory_names es)
              ])
              h in
          let each =
            subst
              (λ ns.
                Goes Somewhere (At (loading names)) (At (loading [])) (load_each host logoscore ns))
              (sym (sort_by_key-agent_last (directory_names entries))) (load_each-Goes names) in
          subst
            (λ ns.
              Goes Somewhere (At (loading ns)) (At (loading []))
                (load_all_modules host logoscore dir))
            (sym same) (rw h (record { from = each.from }))
