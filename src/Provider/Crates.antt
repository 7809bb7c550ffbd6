-- ===== src/Provider/Crates.antt =====
-- What provider.rs calls of other crates, as parameters: `serde_json`, `hex`, and of the LEZ crates
-- the account ids, the viewing keys, the wallet and the sequencer behind it.
use lp_0008_logos_agent_modu.Base.{ℕ, Bool, Option, List, Result, Text}
use lp_0008_logos_agent_modu.Keys.{Bytes}
use lp_0008_logos_agent_modu.Std.Disk.{Disk}

-- `serde_json::Value`, and `get` with the key first.
pub record Json : Type 1 where
  pub Value : Type 0
  pub get : Text → Value → Option Value
  pub as_array : Value → Option (List Value)
  pub as_str : Value → Option Text
  pub as_u64 : Value → Option ℕ
  pub from_slice : Bytes → Result Value Text
  -- `serde_json::to_string` of objects with an account id, a balance and a nonce
  pub history_to_string : List (Text × Text × Text) → Result Text Text

-- `hex::encode` and `hex::decode`
pub record HexCodec : Type 0 where
  pub encode : Bytes → Text
  pub decode : Text → Result Bytes Text

-- `nssa::AccountId`, `nssa_core::encryption::ViewingPublicKey`, and the nonces and signing keys of
-- public accounts.
pub record Identity : Type 1 where
  pub AccountId : Type 0
  pub parse : Text → Result AccountId Text
  pub to_string : AccountId → Text
  pub same : AccountId → AccountId → Bool
  pub ViewingPublicKey : Type 0
  pub from_seed : Bytes → Bytes → ViewingPublicKey
  pub from_bytes : Bytes → Result ViewingPublicKey Text
  pub Nonce : Type 0
  pub SigningKey : Type 0

-- What the sequencer is asked for. The transfers of `NativeTokenTransfer` to outer accounts have
-- the sender, the keys of the recipient, the identifier and the amount; a public transaction has
-- the program, the accounts, their nonces, the instruction and the keys that sign it.
pub data Request (i : Identity) : Type 0 where
  shielded_transfer private_transfer : i.AccountId → Bytes → i.ViewingPublicKey → ℕ → ℕ → Request i
  public_transaction :
      List ℕ → List i.AccountId → List i.Nonce → List ℕ → List i.SigningKey → Request i
  program_deployment : Bytes → Request i

-- `WalletCore`: opening it may read and write files, and what a request answers may depend on
-- all that was sent before. `Mnemonic::to_seed` gives an
-- array of 64 bytes. `Entropy` is what a new wallet draws at random.
-- `Mnemonic::to_seed` gives an array of 64 bytes. `Entropy` is what a new wallet draws at random.
pub record Wallet (i : Identity) : Type 1 where
  pub Core : Type 0
  pub new_update_chain : Text → Text → Disk → Result Core Text × Disk
  pub send : Core → List (Request i) → Request i → Result Bytes Text
  pub Entropy : Type 0
  pub Mnemonic : Type 0
  pub new_init_storage : Entropy → Text → Text → Text → Disk → Result (Core × Mnemonic) Text × Disk
  pub to_seed : Mnemonic → Text → Bytes
  pub phrase : Mnemonic → Text
  pub store_persistent_data : Core → Disk → Result (Unit {0}) Text × Disk
  pub get_accounts_nonces : Core → List (Request i) → List i.AccountId → Result (List i.Nonce) Text
  pub get_account_public_signing_key : Core → i.AccountId → Option i.SigningKey
  -- `Program::new` and `id`: eight words
  pub program_id : Bytes → Result (List ℕ) Text
  -- the balance and the nonce of an account
  pub get_account_private : Core → i.AccountId → Option (ℕ × ℕ)
  pub get_account_balance : Core → List (Request i) → i.AccountId → Result ℕ Text
  -- the account in the JSON that `serde_json::to_string` gives
  pub get_account_public : Core → List (Request i) → i.AccountId → Result Text Text
  pub get_last_block_id : Core → List (Request i) → Result ℕ Text
  pub sync_to_block : Core → List (Request i) → ℕ → Result Core Text
