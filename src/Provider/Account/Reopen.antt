-- ===== src/Provider/Account/Reopen.antt =====
-- `ensure_account` twice: the second call finds what the first one left.
use lp_0008_logos_agent_modu.Base.{
  map_err, map_err-ok, length-take, take, >>=-eq-ok, ◌≡◌, sym, ap, ◌∙◌, inl, inr, true, false, none,
  [], arith, Option-cases, length, Result, ok, Text,
}
use lp_0008_logos_agent_modu.Keys.{
  Bytes, Sha256, Base58, account_input, derive_npk, derive_account_id, to_base58,
}
use lp_0008_logos_agent_modu.Keystore.Crates.{KeystoreFile, Crypto, IsSound}
use lp_0008_logos_agent_modu.Keystore.{KeystoreError, load, decrypt, save}
use lp_0008_logos_agent_modu.Keystore.RoundTrip.{load-save, decrypt-encrypt}
use lp_0008_logos_agent_modu.Std.Disk.{Disk, read, write, exists_file, exists-read}
use lp_0008_logos_agent_modu.Provider.Crates.{Identity, Wallet}
use lp_0008_logos_agent_modu.Provider.{ProviderError, AgentPaths, paths_new}
use lp_0008_logos_agent_modu.Provider.World.{World, continue}
use lp_0008_logos_agent_modu.Provider.Account.{
  read_key, id_of_key, parse_derived, account_id_from_keystore, first_init, reopen, ensure_account,
}
use lp_0008_logos_agent_modu.Provider.Account.FirstInit.{first_init-Made}

-- An identifier of 32 bytes in base58 is read, and printed in the same way; a digest has 32 bytes.
pub record IsFaithful (sha : Sha256) (b58 : Base58) (i : Identity) : Type 0 where
  pub length-digest : (bytes : Bytes) → length (sha.digest bytes) ≡ 32
  pub parse-encode :
      (bytes : Bytes)
      → length bytes ≡ 32
      → (id : i.AccountId) × (i.parse (b58.encode bytes) ≡ ok id)
        × (i.to_string id ≡ b58.encode bytes)

-- The wallet writes its own two files only.
pub record LeavesAlone (i : Identity) (lez : Wallet i) (home : Text) : Type 0 where
  pub length-to_seed : (m : lez.Mnemonic) (salt : Text) → length (lez.to_seed m salt) ≡ 64
  pub init_faults :
      (entropy : lez.Entropy) (passphrase : Text) (disk : Disk)
      → let paths = paths_new home in
        let made =
          (lez.new_init_storage entropy paths.config_path paths.storage_path passphrase disk).1 in
        (made.read_fault paths.keystore_path ≡ disk.read_fault paths.keystore_path)
        × (made.dir_fault home ≡ disk.dir_fault home)
  pub store_keystore :
      (core : lez.Core) (disk : Disk)
      → let paths = paths_new home in
        let stored = (lez.store_persistent_data core disk).1 in
        (read paths.keystore_path stored ≡ read paths.keystore_path disk)
        × (stored.dir_fault home ≡ disk.dir_fault home)

module _ (c : Crypto) (sha : Sha256) (b58 : Base58) (i : Identity) (lez : Wallet i) where
  save-dir_fault :
      (path : Text) (file : KeystoreFile) (disk : Disk) (dir : Text)
      → (save c path file disk).1.dir_fault dir ≡ disk.dir_fault dir
  unfolding save write
  save-dir_fault path file disk dir = ground arith

  load-read : (path : Text) (d e : Disk) → read path d ≡ read path e → load c path d ≡ load c path e
  unfolding load
  load-read path d e same = rw same

  exists-load :
      (path : Text) (disk : Disk) {file : KeystoreFile}
      → load c path disk ≡ ok file
      → exists_file path disk ≡ true
  unfolding load
  exists-load path disk h =
      let (bytes, r, _) = >>=-eq-ok (map_err KeystoreError.io (read path disk)) _ h in
      exists-read path disk (map_err-ok KeystoreError.io (read path disk) r)

  account_id_from_keystore-ok :
      (paths : AgentPaths) (passphrase : Text) (disk : Disk) (file : KeystoreFile) (nsk : Bytes)
      → IsFaithful sha b58 i
      → load c paths.keystore_path disk ≡ ok file
      → decrypt c file passphrase ≡ ok nsk
      → (id : i.AccountId) × (account_id_from_keystore c sha b58 i paths passphrase disk ≡ ok id)
        × (i.to_string id ≡ id_of_key c sha b58 i nsk)
  unfolding account_id_from_keystore read_key parse_derived id_of_key derive_account_id to_base58
  account_id_from_keystore-ok paths passphrase disk file nsk faithful found opened =
      let (id, parsed, printed) =
        faithful.parse-encode (sha.digest (account_input (derive_npk sha nsk)))
          (faithful.length-digest _) in
      (id, ground arith, printed)

  -- The identifier that a key file leads to.
  reopen-ok :
      (paths : AgentPaths) (passphrase : Text) (w : World i) {id : i.AccountId}
      → account_id_from_keystore c sha b58 i paths passphrase w.disk ≡ ok id
      → reopen c sha b58 i lez paths passphrase w ≡ (ok (i.to_string id), w)
  unfolding reopen
  reopen-ok paths passphrase w {id} found =
      ap
        (λ (r : Result i.AccountId ProviderError). continue (r, w) (λ a v. (ok (i.to_string a), v)))
        found

  dir_of_success :
      (home passphrase : Text) (entropy : lez.Entropy) (rng : c.Rng) (w : World i) {id : Text}
      → exists_file (paths_new home).keystore_path w.disk ≡ false
      → (ensure_account c sha b58 i lez home passphrase entropy rng w).0 ≡ ok id
      → (w.disk.dir_fault home ≡ none)
        × (ensure_account c sha b58 i lez home passphrase entropy rng w
            ≡ first_init c sha b58 i lez (paths_new home) passphrase entropy rng w)
  unfolding ensure_account
  dir_of_success home passphrase entropy rng w fresh h =
      elim (Option-cases (w.disk.dir_fault home)) [
        | inr (e, fault) ↦ absurd (cc (rw (ensure_account, fault) at h))
        | inl fine ↦ (fine, ground arith)
      ]

  pub ensure_account-reopen :
      (home passphrase : Text) (entropy : lez.Entropy) (rng : c.Rng) (w : World i)
      → w.disk.dir_fault home ≡ none
      → exists_file (paths_new home).keystore_path w.disk ≡ true
      → ensure_account c sha b58 i lez home passphrase entropy rng w
        ≡ reopen c sha b58 i lez (paths_new home) passphrase w
  unfolding ensure_account
  ensure_account-reopen home passphrase entropy rng w fine there = ground arith

  -- Where the wallet leaves the key file alone: if a first call of `ensure_account`, on a home
  -- without a key file that can be read once it is there, gives an identifier, a second call with
  -- the same passphrase gives the same identifier, whatever it could draw at random, and changes
  -- nothing.
  pub ensure_account_again :
      (sound : IsSound c) (faithful : IsFaithful sha b58 i) (home passphrase : Text)
      (alone : LeavesAlone i lez home) (entropy entropy' : lez.Entropy) (rng rng' : c.Rng)
      (w : World i) {id : Text}
      → exists_file (paths_new home).keystore_path w.disk ≡ false
      → w.disk.read_fault (paths_new home).keystore_path ≡ none
      → (ensure_account c sha b58 i lez home passphrase entropy rng w).0 ≡ ok id
      → let v = (ensure_account c sha b58 i lez home passphrase entropy rng w).1 in
        ensure_account c sha b58 i lez home passphrase entropy' rng' v ≡ (ok id, v)
  ensure_account_again sound faithful home passphrase alone entropy entropy' rng rng' w {id} fresh
        readable h =
      let paths = paths_new home in
      let v = (ensure_account c sha b58 i lez home passphrase entropy rng w).1 in
      let (fine, first) = dir_of_success home passphrase entropy rng w fresh h in
      let (core, mnemonic, file, (e, s, same_id, disk)) =
        first_init-Made c sha b58 i lez paths passphrase entropy rng w
          (sym (ap (λ (r : Result Text ProviderError × World i). r.0) first) ∙ h) in
      let made =
        (lez.new_init_storage entropy paths.config_path paths.storage_path passphrase w.disk).1 in
      let saved = (save c paths.keystore_path file made).1 in
      let left : v.disk ≡ (lez.store_persistent_data core saved).1 =
        ap (λ (r : Result Text ProviderError × World i). r.1.disk) first ∙ disk in
      let faults = alone.init_faults entropy passphrase w.disk in
      let kept = alone.store_keystore core saved in
      let back : load c paths.keystore_path v.disk ≡ ok file =
        ap (λ d. load c paths.keystore_path d) left
        ∙ load-read paths.keystore_path _ saved kept.0
        ∙ load-save c sound paths.keystore_path file made s (faults.0 ∙ readable) in
      let nsk = take 32 (lez.to_seed mnemonic []) in
      let opened =
        decrypt-encrypt c sound nsk passphrase rng
          (length-take 32 (lez.to_seed mnemonic [])
            (omega (arith, alone.length-to_seed mnemonic [])))
          e in
      let still : v.disk.dir_fault home ≡ none =
        ap (λ (d : Disk). d.dir_fault home) left
        ∙ kept.1
        ∙ save-dir_fault paths.keystore_path file made home
        ∙ faults.1
        ∙ fine in
      let (account_id, found, printed) =
        account_id_from_keystore-ok paths passphrase v.disk file nsk faithful back opened in
      ensure_account-reopen home passphrase entropy' rng' v still
        (exists-load paths.keystore_path v.disk back)
      ∙ reopen-ok paths passphrase v found
      ∙ ap (λ s. (ok s, v)) (printed ∙ sym same_id)
