-- ===== src/Provider/Queries.antt =====
-- `get_balance`, `sync_private`, `get_history` and `program_query` of provider.rs.
pub mod Answers
use lp_0008_logos_agent_modu.Base.{
  map_err, take, ℕ, zero, suc, ◌+◌, Bool, true, not, none, some, List, [], ◌∷◌, ◌++◌, length,
  Result, ok, Text, lit,
}
use lp_0008_logos_agent_modu.Keys.{Sha256, Base58}
use lp_0008_logos_agent_modu.Keystore.Crates.{Crypto}
use lp_0008_logos_agent_modu.Std.Decimal.{to_string}
use lp_0008_logos_agent_modu.Provider.Crates.{Json, Identity, Wallet}
use lp_0008_logos_agent_modu.Provider.{ProviderError, paths_new, wallet, json}
use lp_0008_logos_agent_modu.Provider.Storage.{account_id_from_wallet, parse_id}
use lp_0008_logos_agent_modu.Provider.Account.{account_id_from_keystore}
use lp_0008_logos_agent_modu.Provider.World.{
  Act, ◌>>=◌, lift, reading, storing, eprintln, open_wallet,
}

-- An `i64`.
pub data ℤ : Type 0 where
  pos : ℕ → ℤ
  negsuc : ℕ → ℤ

-- `if limit <= 0 { entries.len() } else { limit as usize }`
abbrev pub shown : ℤ → ℕ → ℕ
shown (pos zero) n = n
shown (pos (suc limit)) n = suc limit
shown (negsuc limit) n = n

module _ (j : Json) (i : Identity) (lez : Wallet i) where
  abbrev pub anyhow : {A : Type 0} → Result A Text → Result A ProviderError
  anyhow r = map_err (λ e. wallet (e ∷ [])) r

  -- The answer of the sequencer, where the wallet does not know the account.
  unfoldable pub ask_sequencer : lez.Core → i.AccountId → Act i Text
  ask_sequencer core account_id = do
    balance ← λ w. (anyhow (lez.get_account_balance core w.sent account_id), w)
    _ ← eprintln (lit "[provider] get_balance: sequencer returned balance=" ++ to_string balance)
    lift (ok (to_string balance))

  unfoldable pub known_or_asked : lez.Core → i.AccountId → Act i Text
  known_or_asked core account_id = elim (lez.get_account_private core account_id) [
    | some (balance, nonce) ↦ do
      _ ←
          eprintln
            (lit "[provider] get_balance: found private account balance=" ++ to_string balance)
      lift (ok (to_string balance))
    | none ↦ do
      _ ← eprintln (lit "[provider] get_balance: private account not found, querying sequencer")
      ask_sequencer core account_id
  ]

  unfoldable pub get_balance : Text → Text → Act i Text
  get_balance home passphrase = do
    account_id ← reading (account_id_from_wallet j i (paths_new home))
    _ ← eprintln (lit "[provider] get_balance: account_id=" ++ i.to_string account_id)
    core ← open_wallet lez (paths_new home)
    known_or_asked core account_id

  unfoldable pub sync_private : Text → Act i Bool
  sync_private home = do
    core ← open_wallet lez (paths_new home)
    tip ← λ w. (
      map_err (λ e. wallet (lit "failed to get chain tip from sequencer" ∷ e ∷ []))
          (lez.get_last_block_id core w.sent),
      w,
    )
    synced ← λ w. (anyhow (lez.sync_to_block core w.sent tip), w)
    _ ← storing (λ disk. (
      anyhow (lez.store_persistent_data synced disk).0,
      (lez.store_persistent_data synced disk).1,
    ))
    lift (ok true)

  unfoldable pub history_entries : lez.Core → i.AccountId → List (Text × Text × Text)
  history_entries core account_id = elim (lez.get_account_private core account_id) [
    | none ↦ []
    | some (balance, nonce) ↦ (i.to_string account_id, to_string balance, to_string nonce) ∷ []
  ]

  unfoldable pub truncate : ℤ → List (Text × Text × Text) → List (Text × Text × Text)
  truncate limit entries = take (shown limit (length entries)) entries

  unfoldable pub get_history : Crypto → Sha256 → Base58 → Text → Text → ℤ → Act i Text
  get_history c sha b58 home passphrase limit = do
    account_id ← reading (account_id_from_keystore c sha b58 i (paths_new home) passphrase)
    core ← open_wallet lez (paths_new home)
    lift (map_err json (j.history_to_string (truncate limit (history_entries core account_id))))

  unfoldable pub program_query : Text → Text → Text → Act i Text
  program_query home program_id params_json = do
    core ← open_wallet lez (paths_new home)
    pid ← lift (parse_id j i (lit "invalid program_id") program_id)
    λ w. (anyhow (lez.get_account_public core w.sent pid), w)
