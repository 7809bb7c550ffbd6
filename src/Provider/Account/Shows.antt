-- ===== src/Provider/Account/Shows.antt =====
-- When `ensure_account` shows the mnemonic.
use mathlib.Core.Path.{subst}
use lp_0008_logos_agent_modu.Base.{
  ◌≡◌, refl, sym, ap, ◌∙◌, ◌⊎◌, inl, inr, true, false, none, some, Option-cases, Bool-cases, List,
  [], ◌∷◌, ◌++◌, append_assoc, arith, take, Result, ok, err, map_err, map_err-ok, Text, lit,
}
use lp_0008_logos_agent_modu.Keys.{Bytes, Sha256, Base58}
use lp_0008_logos_agent_modu.Keystore.Crates.{Crypto, KeystoreFile}
use lp_0008_logos_agent_modu.Keystore.{encrypt, save}
use lp_0008_logos_agent_modu.Std.Disk.{Disk, exists_file}
use lp_0008_logos_agent_modu.Provider.Crates.{Identity, Wallet}
use lp_0008_logos_agent_modu.Provider.{ProviderError, AgentPaths, paths_new, keystore, wallet, io}
use lp_0008_logos_agent_modu.Provider.World.{World, continue-cases}
use lp_0008_logos_agent_modu.Provider.Account.FirstInit.{keep_key-ok}
use lp_0008_logos_agent_modu.Provider.Account.Reopen.{ensure_account-reopen}
use lp_0008_logos_agent_modu.Provider.Account.{
  account_id_from_keystore, show_mnemonic, keep_key, finish_init, first_init, reopen,
  ensure_account,
}

pair_of : {A B : Type 0} {a : A} (r : A × B) → r.0 ≡ a → r ≡ (a, r.1)
pair_of r h = ap (λ x. (x, r.1)) h

module _ (c : Crypto) (sha : Sha256) (b58 : Base58) (i : Identity) (lez : Wallet i) where
  abbrev pub mnemonic_lines : lez.Mnemonic → List Text
  mnemonic_lines mnemonic =
      lit "=== LEZ agent mnemonic (RECORD THIS, never shown again) ==="
      ∷ lez.phrase mnemonic
      ∷ lit "==========================================================="
      ∷ []

  -- Nothing was shown, or the wallet was made, the file with the key of its mnemonic was written to
  -- the disk that this left, and then the mnemonic was shown. What follows is that the wallet stores
  -- its own files.
  abbrev pub ShowsKept :
      AgentPaths
      → Text
      → lez.Entropy
      → c.Rng
      → World i
      → Result Text ProviderError × World i
      → Type 0
  ShowsKept paths passphrase entropy rng w r =
      (r.1.printed ≡ w.printed)
      ⊎ ((core : lez.Core) × (mnemonic : lez.Mnemonic) × (file : KeystoreFile) × (made saved : Disk)
          × (lez.new_init_storage entropy paths.config_path paths.storage_path passphrase w.disk
              ≡ (ok (core, mnemonic), made))
          × ((encrypt c (take 32 (lez.to_seed mnemonic [])) passphrase rng).0 ≡ ok file)
          × (save c paths.keystore_path file made ≡ (ok tt, saved))
          × (r.1.printed ≡ w.printed ++ mnemonic_lines mnemonic)
          × (r.1.disk ≡ (lez.store_persistent_data core saved).1))

  finish_init-printed :
      (core : lez.Core) (mnemonic : lez.Mnemonic) (nsk : Bytes) (w : World i)
      → (finish_init c sha b58 i lez core mnemonic nsk w).1.printed
        ≡ w.printed ++ mnemonic_lines mnemonic
  unfolding finish_init show_mnemonic
  finish_init-printed core mnemonic nsk w =
      let lines = (append_assoc (w.printed ++ _) _ _) ∙ append_assoc w.printed _ _ in
      continue-cases
        (λ (r : Result Text ProviderError × World i).
          r.1.printed ≡ w.printed ++ mnemonic_lines mnemonic)
        (map_err (λ e. wallet (e ∷ [])) (lez.store_persistent_data core w.disk).0) _ _ (λ e. lines)
        (λ u h. lines)

  finish_init-disk :
      (core : lez.Core) (mnemonic : lez.Mnemonic) (nsk : Bytes) (w : World i)
      → (finish_init c sha b58 i lez core mnemonic nsk w).1.disk
        ≡ (lez.store_persistent_data core w.disk).1
  unfolding finish_init show_mnemonic
  finish_init-disk core mnemonic nsk w =
      continue-cases
        (λ (r : Result Text ProviderError × World i).
          r.1.disk ≡ (lez.store_persistent_data core w.disk).1)
        (map_err (λ e. wallet (e ∷ [])) (lez.store_persistent_data core w.disk).0) _ _ (λ e. refl)
        (λ u h. refl)

  keep_key-printed :
      (paths : AgentPaths) (passphrase : Text) (rng : c.Rng) (nsk : Bytes) (w : World i)
      → (keep_key c sha b58 i lez paths passphrase rng nsk w).1.printed ≡ w.printed
  unfolding keep_key
  keep_key-printed paths passphrase rng nsk w =
      continue-cases (λ (r : Result (Unit {0}) ProviderError × World i). r.1.printed ≡ w.printed)
        (map_err keystore (encrypt c nsk passphrase rng).0) w _ (λ e. refl) (λ file h. refl)

  first_init-ShowsKept :
      (paths : AgentPaths) (passphrase : Text) (entropy : lez.Entropy) (rng : c.Rng) (w : World i)
      → ShowsKept paths passphrase entropy rng w
          (first_init c sha b58 i lez paths passphrase entropy rng w)
  unfolding first_init keep_key
  first_init-ShowsKept paths passphrase entropy rng w =
      let made =
        lez.new_init_storage entropy paths.config_path paths.storage_path passphrase w.disk in
      let D = ShowsKept paths passphrase entropy rng w in
      continue-cases D (map_err (λ e. wallet (e ∷ [])) made.0) (record w { disk = made.1 }) _
        (λ e. inl refl)
        (λ (core, mnemonic) h.
          let v = record w { disk = made.1 } in
          let nsk = take 32 (lez.to_seed mnemonic []) in
          let kept = keep_key c sha b58 i lez paths passphrase rng nsk v in
          let quiet = keep_key-printed paths passphrase rng nsk v in
          continue-cases D kept.0 kept.1 _ (λ e. inl quiet)
            (λ u saved.
              let (file, encrypted, written, left) =
                keep_key-ok c sha b58 i lez paths passphrase rng nsk v saved in
              inr (
                core,
                mnemonic,
                file,
                made.1,
                (save c paths.keystore_path file made.1).1,
                pair_of made (map_err-ok (λ e. wallet (e ∷ [])) made.0 h),
                encrypted,
                pair_of (save c paths.keystore_path file made.1) written,
                finish_init-printed core mnemonic nsk kept.1
                    ∙ ap (λ t. t ++ mnemonic_lines mnemonic) quiet,
                finish_init-disk core mnemonic nsk kept.1
                    ∙ ap (λ d. (lez.store_persistent_data core d).1) left,
              )))

  reopen-world :
      (paths : AgentPaths) (passphrase : Text) (w : World i)
      → (reopen c sha b58 i lez paths passphrase w).1 ≡ w
  unfolding reopen
  reopen-world paths passphrase w =
      continue-cases (λ (r : Result Text ProviderError × World i). r.1 ≡ w)
        (account_id_from_keystore c sha b58 i paths passphrase w.disk) w _ (λ e. refl)
        (λ id h. refl)

  module _ (home passphrase : Text) (entropy : lez.Entropy) (rng : c.Rng) (w : World i) where
    ensure_account-fault :
        {e : Text}
        → w.disk.dir_fault home ≡ some e
        → ensure_account c sha b58 i lez home passphrase entropy rng w ≡ (err (io e), w)
    unfolding ensure_account
    ensure_account-fault h = ground arith

    ensure_account-first_init :
        w.disk.dir_fault home ≡ none
        → exists_file (paths_new home).keystore_path w.disk ≡ false
        → ensure_account c sha b58 i lez home passphrase entropy rng w
          ≡ first_init c sha b58 i lez (paths_new home) passphrase entropy rng w
    unfolding ensure_account
    ensure_account-first_init h new = ground arith

    -- Whatever comes of it, `ensure_account` shows the mnemonic only on a home without a key file,
    -- and only after it has written the key file that belongs to the mnemonic to the disk that
    -- making the wallet left; what follows on the disk is that the wallet stores its own files. On a
    -- home with a key file it changes nothing and shows nothing, with any passphrase.
    pub ensure_account-ShowsKept :
        let r = ensure_account c sha b58 i lez home passphrase entropy rng w in
        ShowsKept (paths_new home) passphrase entropy rng w r
        × (exists_file (paths_new home).keystore_path w.disk ≡ true → r.1 ≡ w)
    ensure_account-ShowsKept = elim (Option-cases (w.disk.dir_fault home)) [
      | inr (e, fault) ↦
          let unchanged =
            ap (λ (r : Result Text ProviderError × World i). r.1) (ensure_account-fault fault) in
          (inl (ap (λ (u : World i). u.printed) unchanged), λ there. unchanged)
      | inl fine ↦ elim (Bool-cases (exists_file (paths_new home).keystore_path w.disk)) [
        | inl there ↦
            let unchanged =
              ap (λ (r : Result Text ProviderError × World i). r.1)
                (ensure_account-reopen c sha b58 i lez home passphrase entropy rng w fine there)
              ∙ reopen-world (paths_new home) passphrase w in
            (inl (ap (λ (u : World i). u.printed) unchanged), λ t. unchanged)
        | inr new ↦ (
          subst (ShowsKept (paths_new home) passphrase entropy rng w)
              (sym (ensure_account-first_init fine new))
              (first_init-ShowsKept (paths_new home) passphrase entropy rng w),
          λ there. absurd (cc),
        )
      ]
    ]
