-- ===== src/Provider/Account.antt =====
-- `account_id_from_keystore` and `ensure_account` of provider.rs.
pub mod FirstInit
pub mod Reopen
pub mod Shows
use lp_0008_logos_agent_modu.Base.{
  map_err, take, [], ◌∷◌, ◌==◌, if◌then◌else◌, Result, ok, err, Text, lit,
}
use lp_0008_logos_agent_modu.Keys.{Bytes, Sha256, Base58, derive_npk, derive_account_id, to_base58}
use lp_0008_logos_agent_modu.Keystore.Crates.{Crypto}
use lp_0008_logos_agent_modu.Keystore.{load, decrypt, encrypt, save}
use lp_0008_logos_agent_modu.Std.Disk.{Disk, exists_file, create_dir_all}
use lp_0008_logos_agent_modu.Provider.Crates.{Identity, Wallet}
use lp_0008_logos_agent_modu.Provider.{ProviderError, AgentPaths, paths_new, keystore, wallet, io}
use lp_0008_logos_agent_modu.Provider.World.{Act, ◌>>=◌, lift, reading, eprintln, storing}

module _ (c : Crypto) (sha : Sha256) (b58 : Base58) (i : Identity) where
  unfoldable pub read_key : AgentPaths → Text → Disk → Result Bytes ProviderError
  read_key paths passphrase disk = elim (load c paths.keystore_path disk) [
    | err e ↦ err (keystore e)
    | ok file ↦ map_err keystore (decrypt c file passphrase)
  ]

  -- The identifier in base58 that belongs to a key.
  unfoldable pub id_of_key : Bytes → Text
  id_of_key nsk = to_base58 b58 (derive_account_id sha (derive_npk sha nsk))

  unfoldable pub parse_derived : Bytes → Result i.AccountId ProviderError
  parse_derived nsk =
      map_err (λ e. wallet (lit "failed to parse derived AccountId" ∷ e ∷ []))
        (i.parse (id_of_key nsk))

  unfoldable pub account_id_from_keystore :
      AgentPaths → Text → Disk → Result i.AccountId ProviderError
  account_id_from_keystore paths passphrase disk = elim (read_key paths passphrase disk) [
    | err e ↦ err e
    | ok nsk ↦ parse_derived nsk
  ]

  module _ (lez : Wallet i) where
    -- The three lines that show the mnemonic.
    unfoldable pub show_mnemonic : lez.Mnemonic → Act i (Unit {0})
    show_mnemonic mnemonic = do
      _ ← eprintln (lit "=== LEZ agent mnemonic (RECORD THIS, never shown again) ===")
      _ ← eprintln (lez.phrase mnemonic)
      eprintln (lit "===========================================================")

    -- The key is the first half of the seed. It is encrypted and saved before the mnemonic is shown.
    unfoldable pub keep_key : AgentPaths → Text → c.Rng → Bytes → Act i (Unit {0})
    keep_key paths passphrase rng nsk = do
      keystore_file ← lift (map_err keystore (encrypt c nsk passphrase rng).0)
      storing (λ disk. (
        map_err keystore (save c paths.keystore_path keystore_file disk).0,
        (save c paths.keystore_path keystore_file disk).1,
      ))

    -- What is left to do once the key is saved.
    unfoldable pub finish_init : lez.Core → lez.Mnemonic → Bytes → Act i Text
    finish_init core mnemonic nsk = do
      _ ← show_mnemonic mnemonic
      _ ← storing (λ disk. (
        map_err (λ e. wallet (e ∷ [])) (lez.store_persistent_data core disk).0,
        (lez.store_persistent_data core disk).1,
      ))
      lift (ok (id_of_key nsk))

    unfoldable pub first_init : AgentPaths → Text → lez.Entropy → c.Rng → Act i Text
    first_init paths passphrase entropy rng = do
      (core, mnemonic) ← storing (λ disk.
          let made =
            lez.new_init_storage entropy paths.config_path paths.storage_path passphrase disk in
          (map_err (λ e. wallet (e ∷ [])) made.0, made.1))
      let nsk = take 32 (lez.to_seed mnemonic [])
      _ ← keep_key paths passphrase rng nsk
      finish_init core mnemonic nsk

    unfoldable pub reopen : AgentPaths → Text → Act i Text
    reopen paths passphrase = do
      account_id ← reading (account_id_from_keystore paths passphrase)
      lift (ok (i.to_string account_id))

    unfoldable pub ensure_account : Text → Text → lez.Entropy → c.Rng → Act i Text
    ensure_account home passphrase entropy rng w =
        let reopened = reopen (paths_new home) passphrase w in
        let made = first_init (paths_new home) passphrase entropy rng w in
        elim (create_dir_all home w.disk) [
          | err e ↦ (err (io e), w)
          | ok _ ↦ if exists_file (paths_new home).keystore_path w.disk then reopened else made
        ]
