-- ===== src/AgentCli/Commands/Args.antt =====
-- The parsed command line of agent-cli.
use lp_0008_logos_agent_modu.Base.{Bool, Option, Text}

pub record DeployArgs : Type 0 where
  pub modules_dir : Text
  pub detach : Bool

pub record ConfigureArgs : Type 0 where
  pub owner : Text
  pub per_tx_limit : Text
  pub per_period_limit : Text
  pub period_seconds : Text
  pub modules_dir : Text

pub record FundArgs : Type 0 where
  pub amount : Text
  pub passphrase : Option Text
  pub modules_dir : Text

pub record StatusArgs : Type 0 where
  pub modules_dir : Text

pub record UpArgs : Type 0 where
  pub modules_dir : Text
  pub detach : Bool
  pub owner : Text
  pub per_tx_limit : Text
  pub per_period_limit : Text
  pub period_seconds : Text
  pub fund : Option Text
  pub passphrase : Option Text

pub data Cmd : Type 0 where
  deploy : DeployArgs → Cmd
  configure : ConfigureArgs → Cmd
  fund : FundArgs → Cmd
  status : StatusArgs → Cmd
  up : UpArgs → Cmd

pub record Cli : Type 0 where
  pub logoscore : Text
  pub command : Cmd
