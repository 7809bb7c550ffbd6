-- ===== src/Provider.antt =====
-- lez-wallet-module/lez-wallet-core/src/provider.rs: the operations of the wallet on the LEZ network.
pub mod Crates
pub mod Storage
pub mod World
pub mod Transfers
pub mod Account
pub mod Programs
pub mod Queries
pub mod Tests
use lp_0008_logos_agent_modu.Base.{◌+◌, ◌/◌, List, [], ◌∷◌, ◌++◌, if◌then◌else◌, Text, lit}
use lp_0008_logos_agent_modu.Keys.{KeyDerivationError}
use lp_0008_logos_agent_modu.Keystore.{KeystoreError}
use lp_0008_logos_agent_modu.Std.Strings.{ends_with_char}

-- An `anyhow` error is its contexts, the outermost first, and its cause.
pub data ProviderError : Type 0 where
  keystore : KeystoreError → ProviderError
  wallet : List Text → ProviderError
  keys : KeyDerivationError → ProviderError
  invalid_amount : Text → ProviderError
  execution : Text → ProviderError
  io json : Text → ProviderError

-- `Path::join` with a relative name.
abbrev pub join : Text → Text → Text
join [] name = name
join (c ∷ dir) name =
    if ends_with_char b'/' (c ∷ dir) then c ∷ (dir ++ name) else c ∷ (dir ++ b'/' ∷ name)

pub record AgentPaths : Type 0 where
  pub home_dir : Text
  pub keystore_path : Text
  pub config_path : Text
  pub storage_path : Text

abbrev pub paths_new : Text → AgentPaths
paths_new home = record {
  home_dir = home;
  keystore_path = join home (lit "keystore.json");
  config_path = join home (lit "wallet_config.json");
  storage_path = join home (lit "wallet_storage.json");
}
