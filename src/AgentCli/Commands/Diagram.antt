-- ===== src/AgentCli/Commands/Diagram.antt =====
-- The diagram of `agent up`: in which order it runs commands, and which answers it waits for.
pub mod Walks
pub mod Deploys
pub mod Configures
pub mod Up
use lp_0008_logos_agent_modu.Base.{
  ◌≡◌, refl, Bool, append_assoc, true, false, Option, none, some, List, [], ◌∷◌, ◌++◌, Result, ok,
  err, Text, lit,
}
use lp_0008_logos_agent_modu.AgentCli.World.{Output, CommandLine, Host}
use lp_0008_logos_agent_modu.AgentCli.Modules.{directory_names}
use lp_0008_logos_agent_modu.AgentCli.Modules.Order.{agent_last}
use lp_0008_logos_agent_modu.AgentCli.Wait.{says_running}
use lp_0008_logos_agent_modu.AgentCli.Wait.Guarantees.{accepted}
use lp_0008_logos_agent_modu.AgentCli.Commands.Configure.{set_command}
use lp_0008_logos_agent_modu.AgentCli.Commands.Secrets.{fund_command}

-- Nothing was run yet; the daemon was spawned; it runs, and these modules are to be loaded; the
-- agent responds, and these values are to be set; a value was refused; the agent was funded.
pub data Phase : Type 0 where
  fresh waiting : Phase
  loading : List Text → Phase
  configuring : List (Text × Text) → Phase
  refused funded : Phase

module _ (host : Host) (logoscore dir : Text) (pairs : List (Text × Text)) (passphrase : Text)
    (amount : Option Text) where
  -- The modules of the directory.
  abbrev pub modules : List Text
  modules = elim (host.read_dir dir) [
    | err e ↦ []
    | ok entries ↦ agent_last (directory_names entries)
  ]

  abbrev pub status_command : CommandLine
  status_command = logoscore ∷ lit "status" ∷ []

  abbrev pub ask_command : CommandLine
  ask_command = logoscore ∷ lit "call" ∷ lit "agent_module" ∷ lit "meta_status" ∷ []

  -- A command that may be run in a phase, after the commands of the list, and the phase to follow.
  pub data Edge : List CommandLine → Phase → CommandLine → Phase → Type 0 where
    spawns :
        {before : List CommandLine}
        → Edge before fresh (logoscore ∷ lit "-D" ∷ lit "-m" ∷ dir ∷ []) waiting
    asks : {before : List CommandLine} → Edge before waiting status_command waiting
    runs :
        {before : List CommandLine}
        → says_running (host.run before status_command) ≡ true
        → Edge before waiting status_command (loading modules)
    loads :
        {before : List CommandLine} {name : Text} {names : List Text}
        → Edge before
            (loading (name ∷ names))
            (logoscore ∷ lit "load-module" ∷ name ∷ [])
            (loading names)
    asks_agent : {before : List CommandLine} → Edge before (loading []) ask_command (loading [])
    responds :
        {before : List CommandLine}
        → accepted (host.run before ask_command) ≡ true
        → Edge before (loading []) ask_command (configuring pairs)
    sets :
        {before : List CommandLine} {pair : Text × Text} {rest : List (Text × Text)}
        → accepted (host.run before (set_command logoscore pair)) ≡ true
        → Edge before (configuring (pair ∷ rest)) (set_command logoscore pair) (configuring rest)
    refuses :
        {before : List CommandLine} {pair : Text × Text} {rest : List (Text × Text)}
        → accepted (host.run before (set_command logoscore pair)) ≡ false
        → Edge before (configuring (pair ∷ rest)) (set_command logoscore pair) refused
    funds :
        {before : List CommandLine} (tokens : Text)
        → amount ≡ some tokens
        → Edge before (configuring []) (fund_command logoscore passphrase tokens) funded

  -- Where a run that succeeds ends.
  abbrev pub final : Phase
  final = elim amount [ none ↦ configuring [] | some tokens ↦ funded ]

  -- The commands after the first list are a walk through the diagram.
  pub data Walk (start : List CommandLine) : List CommandLine → Phase → Type 0 where
    here : Walk start start fresh
    next :
        {before : List CommandLine} {p q : Phase} {cmd : CommandLine}
        → Walk start before p
        → Edge before p cmd q
        → Walk start (before ++ (cmd ∷ [])) q

  -- A command was run at some point, and its answer was accepted.
  abbrev Answered : CommandLine → (Result Output Text → Bool) → List CommandLine → Type 0
  Answered cmd accepts ran =
      (before : List CommandLine) × (after : List CommandLine) × (ran ≡ before ++ cmd ∷ after)
      × (accepts (host.run before cmd) ≡ true)

  -- The answers that a phase rests on.
  abbrev pub ReadyFor : Phase → List CommandLine → Type 0
  ReadyFor fresh ran = Unit
  ReadyFor waiting ran = Unit
  ReadyFor (loading names) ran = Answered status_command says_running ran
  ReadyFor (configuring rest) ran =
      Answered status_command says_running ran × Answered ask_command accepted ran
  ReadyFor refused ran =
      Answered status_command says_running ran × Answered ask_command accepted ran
  ReadyFor funded ran = Answered status_command says_running ran × Answered ask_command accepted ran

  Answered-append :
      {cmd : CommandLine} (accepts : Result Output Text → Bool) (ran : List CommandLine)
      (last : CommandLine)
      → Answered cmd accepts ran
      → Answered cmd accepts (ran ++ (last ∷ []))
  Answered-append accepts ran last (before, after, e, h) =
      (before, after ++ (last ∷ []), rw e (append_assoc before _ _), h)

  Edge-ReadyFor :
      {before : List CommandLine} {p q : Phase} {cmd : CommandLine}
      → Edge before p cmd q
      → ReadyFor p before
      → ReadyFor q (before ++ (cmd ∷ []))
  Edge-ReadyFor spawns h = tt
  Edge-ReadyFor asks h = tt
  Edge-ReadyFor {before} (runs says) h = (before, [], refl, says)
  Edge-ReadyFor {before} loads h = Answered-append says_running before _ h
  Edge-ReadyFor {before} asks_agent h = Answered-append says_running before _ h
  Edge-ReadyFor {before} (responds good) h =
      (Answered-append says_running before _ h, (before, [], refl, good))
  Edge-ReadyFor {before} (sets good) (h, k) =
      (Answered-append says_running before _ h, Answered-append accepted before _ k)
  Edge-ReadyFor {before} (refuses bad) (h, k) =
      (Answered-append says_running before _ h, Answered-append accepted before _ k)
  Edge-ReadyFor {before} (funds tokens given) (h, k) =
      (Answered-append says_running before _ h, Answered-append accepted before _ k)

  pub Walk-ReadyFor :
      (start : List CommandLine) {ran : List CommandLine} {p : Phase}
      → Walk start ran p
      → ReadyFor p ran
  Walk-ReadyFor start here = tt
  Walk-ReadyFor start (next walk edge) = Edge-ReadyFor edge (Walk-ReadyFor start walk)
