-- ===== src/AgentCli.antt =====
-- agent-cli/src/main.rs: the command line tool that deploys and configures the agent module.
pub mod JsonStr
pub mod CallExpr
pub mod World
pub mod Calls
pub mod Wait
pub mod Modules
pub mod Commands
mod Tests
