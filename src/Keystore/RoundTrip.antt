-- ===== src/Keystore/RoundTrip.antt =====
-- A key that was encrypted is decrypted with the same passphrase, also from the disk.
use mathlib.Core.Path.{subst}
use lp_0008_logos_agent_modu.Base.{
  ℕ, ◌≡◌, inl, inr, Option, none, some, List, arith, length, ok, ◌>>=◌, map_err, map_err-ok,
  >>=-eq-ok, Result-cases, Text,
}
use lp_0008_logos_agent_modu.Keys.{Bytes}
use lp_0008_logos_agent_modu.Keystore.Crates.{KeystoreFile, Crypto, IsSound}
use lp_0008_logos_agent_modu.Keystore.{
  KeystoreError, io, encrypt_failed, try_into, ok_or, derive_key, encrypt, unseal, decrypt, save,
  load,
}
use lp_0008_logos_agent_modu.Std.Disk.{Disk, read, write, read-write, write-ok}

try_into-ok :
    (n : ℕ) (e : KeystoreError) (bytes : Bytes) → length bytes ≡ n → try_into n e bytes ≡ ok bytes
try_into-ok n e bytes h = ground arith

pub ok_or-ok :
    {A : Type 0} (o : Option A) (e : KeystoreError) {a : A} → ok_or o e ≡ ok a → o ≡ some a
ok_or-ok none e h = absurd (cc)
ok_or-ok (some b) e h = cc

read_written :
    (path : Text) (bytes : List ℕ) (disk : Disk)
    → map_err io (write path bytes disk).0 ≡ ok tt
    → disk.read_fault path ≡ none
    → read path (write path bytes disk).1 ≡ ok bytes
read_written path bytes disk w h =
    (read-write path bytes disk h
      (write-ok path bytes disk (map_err-ok io (write path bytes disk).0 w))).1

module _ (c : Crypto) (sound : IsSound c) where
  -- The file that `encrypt` writes.
  abbrev sealed_file : Bytes → Bytes → Bytes → KeystoreFile
  sealed_file salt nonce cipher = record {
    version = 1;
    salt_b64 = c.b64_encode salt;
    nonce_b64 = c.b64_encode nonce;
    ciphertext_b64 = c.b64_encode cipher;
  }

  decrypt-sealed_file :
      (salt nonce cipher key nsk : Bytes) (passphrase : Text)
      → length salt ≡ 16
      → length nonce ≡ 12
      → length cipher ≡ 48
      → length nsk ≡ 32
      → derive_key c passphrase salt ≡ ok key
      → c.open_sealed key nonce cipher ≡ some nsk
      → decrypt c (sealed_file salt nonce cipher) passphrase ≡ ok nsk
  unfolding decrypt unseal
  decrypt-sealed_file salt nonce cipher key nsk passphrase hs hn hc hk derived opened =
      ground
        (arith, sound.decode-encode salt, sound.decode-encode nonce, sound.decode-encode cipher)

  pub load-save :
      (path : Text) (file : KeystoreFile) (disk : Disk)
      → (save c path file disk).0 ≡ ok tt
      → disk.read_fault path ≡ none
      → load c path (save c path file disk).1 ≡ ok file
  unfolding load save
  load-save path file disk saved readable = elim (Result-cases (c.to_json file)) [
    | inr (e, failed) ↦ absurd (cc (rw (failed, save) at saved))
    | inl (bytes, printed) ↦
        let back = read_written path bytes disk (rw (printed, save) at saved) readable in
        rw (printed, save) (rw (back, load) (rw (sound.from_json-to_json file bytes printed)))
  ]

  -- A file that `encrypt` returns is decrypted to the key of 32 bytes that went in, by the same
  -- passphrase.
  pub decrypt-encrypt :
      (nsk : Bytes) (passphrase : Text) (rng : c.Rng) {file : KeystoreFile}
      → length nsk ≡ 32
      → (encrypt c nsk passphrase rng).0 ≡ ok file
      → decrypt c file passphrase ≡ ok nsk
  unfolding encrypt
  decrypt-encrypt nsk passphrase rng {file} h e =
      let salt = (c.fill_bytes 16 rng).0 in
      let nonce = (c.fill_bytes 12 (c.fill_bytes 16 rng).1).0 in
      let (key, derived, e') = >>=-eq-ok (derive_key c passphrase salt) _ e in
      let (cipher, sealed, written) =
        >>=-eq-ok (ok_or (c.seal key nonce nsk) encrypt_failed) _ e' in
      let closed = ok_or-ok (c.seal key nonce nsk) encrypt_failed sealed in
      let same : sealed_file salt nonce cipher ≡ file = cc written in
      subst (λ f. decrypt c f passphrase ≡ ok nsk) same
        (decrypt-sealed_file salt nonce cipher key nsk passphrase (sound.length-fill_bytes 16 rng)
          (sound.length-fill_bytes 12 (c.fill_bytes 16 rng).1)
          (omega (arith, sound.length-seal key nonce nsk cipher closed)) h derived
          (sound.open-seal key nonce nsk cipher closed))

  encrypt-sealed :
      (nsk : Bytes) (passphrase : Text) (rng : c.Rng) {key cipher : Bytes}
      → derive_key c passphrase (c.fill_bytes 16 rng).0 ≡ ok key
      → c.seal key (c.fill_bytes 12 (c.fill_bytes 16 rng).1).0 nsk ≡ some cipher
      → (encrypt c nsk passphrase rng).0
        ≡ ok
            (sealed_file (c.fill_bytes 16 rng).0 (c.fill_bytes 12 (c.fill_bytes 16 rng).1).0 cipher)
  unfolding encrypt
  encrypt-sealed nsk passphrase rng {cipher} derived sealed =
      rw (encrypt, derived)
        (rw sealed (λ i.
          ok (
            sealed_file (c.fill_bytes 16 rng).0 (c.fill_bytes 12 (c.fill_bytes 16 rng).1).0
              cipher)))

  -- The same from the disk: where `encrypt` and `save` succeed and the file can be read, `load`
  -- gives a file that is decrypted to the key.
  pub decrypt-load :
      (nsk : Bytes) (passphrase : Text) (rng : c.Rng) {file : KeystoreFile} (path : Text)
      (disk : Disk)
      → length nsk ≡ 32
      → (encrypt c nsk passphrase rng).0 ≡ ok file
      → (save c path file disk).0 ≡ ok tt
      → disk.read_fault path ≡ none
      → (load c path (save c path file disk).1 >>= λ f. decrypt c f passphrase) ≡ ok nsk
  decrypt-load nsk passphrase rng {file} path disk h e saved readable =
      rw (load-save path file disk saved readable) (decrypt-encrypt nsk passphrase rng h e)
