-- ===== src/Provider/Account/FirstInit.antt =====
-- What a first call of `ensure_account` does.
use lp_0008_logos_agent_modu.Base.{
  map_err, map_err-ok, take, Result-cases, ◌≡◌, refl, ap, ◌∙◌, inl, inr, [], ◌∷◌, arith, Result, ok,
  err, Text,
}
use lp_0008_logos_agent_modu.Keys.{Bytes, Sha256, Base58}
use lp_0008_logos_agent_modu.Keystore.Crates.{KeystoreFile, Crypto}
use lp_0008_logos_agent_modu.Keystore.{encrypt, save}
use lp_0008_logos_agent_modu.Provider.Crates.{Identity, Wallet}
use lp_0008_logos_agent_modu.Provider.{ProviderError, AgentPaths, keystore, wallet}
use lp_0008_logos_agent_modu.Provider.World.{World, Act, continue}
use lp_0008_logos_agent_modu.Provider.Account.{
  id_of_key, show_mnemonic, keep_key, finish_init, first_init,
}

pub continue-ok :
    {i : Identity} {A B : Type 0} (r : Result A ProviderError × World i) (f : A → Act i B) {b : B}
    → (continue r f).0 ≡ ok b
    → (a : A) × (r.0 ≡ ok a) × ((f a r.1).0 ≡ ok b) × (continue r f ≡ f a r.1)
continue-ok (ok a, w) f h = (a, refl, h, refl)
continue-ok (err e, w) f h = absurd (cc)

module _ (c : Crypto) (sha : Sha256) (b58 : Base58) (i : Identity) (lez : Wallet i) where
  -- What a first call that succeeds has done.
  abbrev pub Made : AgentPaths → Text → lez.Entropy → c.Rng → World i → Text → Type 0
  Made paths passphrase entropy rng w id =
      (core : lez.Core) × (mnemonic : lez.Mnemonic) × (file : KeystoreFile) × (let nsk =
          take 32 (lez.to_seed mnemonic []) in
        let made =
          (lez.new_init_storage entropy paths.config_path paths.storage_path passphrase w.disk).1 in
        ((encrypt c nsk passphrase rng).0 ≡ ok file)
        × ((save c paths.keystore_path file made).0 ≡ ok tt)
        × (id ≡ id_of_key c sha b58 i nsk)
        × ((first_init c sha b58 i lez paths passphrase entropy rng w).1.disk
            ≡ (lez.store_persistent_data core (save c paths.keystore_path file made).1).1))

  pub keep_key-ok :
      (paths : AgentPaths) (passphrase : Text) (rng : c.Rng) (nsk : Bytes) (w : World i)
      → (keep_key c sha b58 i lez paths passphrase rng nsk w).0 ≡ ok tt
      → (file : KeystoreFile) × ((encrypt c nsk passphrase rng).0 ≡ ok file)
        × ((save c paths.keystore_path file w.disk).0 ≡ ok tt)
        × ((keep_key c sha b58 i lez paths passphrase rng nsk w).1.disk
            ≡ (save c paths.keystore_path file w.disk).1)
  unfolding keep_key
  keep_key-ok paths passphrase rng nsk w h =
      let (file, e, s, same) =
        continue-ok (map_err keystore (encrypt c nsk passphrase rng).0, w) _ h in
      (
        file,
        map_err-ok keystore (encrypt c nsk passphrase rng).0 e,
        map_err-ok keystore (save c paths.keystore_path file w.disk).0 s,
        ap (λ (r : Result (Unit {0}) ProviderError × World i). r.1.disk) same,
      )

  finish_init-ok :
      (core : lez.Core) (mnemonic : lez.Mnemonic) (nsk : Bytes) (w : World i) {id : Text}
      → (finish_init c sha b58 i lez core mnemonic nsk w).0 ≡ ok id
      → (id ≡ id_of_key c sha b58 i nsk)
        × ((finish_init c sha b58 i lez core mnemonic nsk w).1.disk
            ≡ (lez.store_persistent_data core w.disk).1)
  unfolding finish_init show_mnemonic
  finish_init-ok core mnemonic nsk w h =
      elim (Result-cases (lez.store_persistent_data core w.disk).0) [
        | inr (e, failed) ↦ absurd (ground arith)
        | inl (u, stored) ↦ (ground arith, ground arith)
      ]

  pub first_init-Made :
      (paths : AgentPaths) (passphrase : Text) (entropy : lez.Entropy) (rng : c.Rng) (w : World i)
      {id : Text}
      → (first_init c sha b58 i lez paths passphrase entropy rng w).0 ≡ ok id
      → Made paths passphrase entropy rng w id
  unfolding first_init
  first_init-Made paths passphrase entropy rng w {id} h =
      let nsk_of : lez.Mnemonic → Bytes = λ m. take 32 (lez.to_seed m []) in
      let made =
        lez.new_init_storage entropy paths.config_path paths.storage_path passphrase w.disk in
      let ((core, mnemonic), _, h1, same1) =
        continue-ok (map_err (λ e. wallet (e ∷ [])) made.0, record w { disk = made.1 }) _ h in
      let (u, kept, h2, same2) =
        continue-ok
          (keep_key c sha b58 i lez paths passphrase rng (nsk_of mnemonic)
            (record w { disk = made.1 }))
          _ h1 in
      let (file, e, s, disk) =
        keep_key-ok paths passphrase rng (nsk_of mnemonic) (record w { disk = made.1 }) kept in
      let (same_id, stored) =
        finish_init-ok core mnemonic (nsk_of mnemonic)
          (keep_key c sha b58 i lez paths passphrase rng (nsk_of mnemonic)
            (record w { disk = made.1 })).1
          h2 in
      (
        core,
        mnemonic,
        file,
        (
          e,
          s,
          same_id,
          ap (λ (r : Result Text ProviderError × World i). r.1.disk) (same1 ∙ same2)
              ∙ stored
              ∙ ap (λ d. (lez.store_persistent_data core d).1) disk,
        ),
      )
