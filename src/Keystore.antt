-- ===== src/Keystore.antt =====
-- lez-wallet-module/lez-wallet-core/src/keystore.rs: the encrypted key at rest.
pub mod Crates
pub mod RoundTrip
pub mod Errors
pub mod Tests
use lp_0008_logos_agent_modu.Base.{
  ℕ, ◌+◌, not, Option, none, some, ◌++◌, ◌==◌, if◌then◌else◌, length, Result, ok, err, ◌>>=◌,
  map_err, Text, lit,
}
use lp_0008_logos_agent_modu.Keys.{Bytes}
use lp_0008_logos_agent_modu.Std.Strings.{as_bytes}
use lp_0008_logos_agent_modu.Std.Decimal.{to_string}
use lp_0008_logos_agent_modu.Keystore.Crates.{KeystoreFile, Crypto}
use lp_0008_logos_agent_modu.Std.Disk.{Disk, read, write}

pub data KeystoreError : Type 0 where
  base64 : KeystoreError
  encrypt_failed wrong_passphrase : KeystoreError
  kdf : Text → KeystoreError
  bad_length : ℕ → KeystoreError
  io : Text → KeystoreError
  json : Text → KeystoreError

-- `try_into` an array of fixed size.
abbrev pub try_into : ℕ → KeystoreError → Bytes → Result Bytes KeystoreError
try_into n e bytes = if length bytes == n then ok bytes else err e

abbrev pub ok_or : {A : Type 0} → Option A → KeystoreError → Result A KeystoreError
ok_or none e = err e
ok_or (some a) e = ok a

module _ (c : Crypto) where
  unfoldable pub derive_key : Text → Bytes → Result Bytes KeystoreError
  derive_key passphrase salt = map_err kdf (c.argon2 (as_bytes passphrase) salt)

  -- The salt and the nonce are drawn from the random source, one after the other. The result is
  -- paired with what is left of the source.
  unfoldable pub encrypt : Bytes → Text → c.Rng → Result KeystoreFile KeystoreError × c.Rng
  encrypt nsk passphrase rng =
      let (salt, rng') = c.fill_bytes 16 rng in
      let (nonce, rng'') = c.fill_bytes 12 rng' in
      (
        (do
          key ← derive_key passphrase salt
          ciphertext ← ok_or (c.seal key nonce nsk) encrypt_failed
          ok (record {
            version = 1;
            salt_b64 = c.b64_encode salt;
            nonce_b64 = c.b64_encode nonce;
            ciphertext_b64 = c.b64_encode ciphertext;
          })),
        rng'',
      )

  -- From the decoded parts to the key.
  unfoldable pub unseal : Text → Bytes → Bytes → Bytes → Result Bytes KeystoreError
  unseal passphrase salt_vec nonce_vec ciphertext = do
    salt ← try_into 16 (kdf (lit "salt must be 16 bytes")) salt_vec
    nonce ← try_into 12 (kdf (lit "nonce must be 12 bytes")) nonce_vec
    key ← derive_key passphrase salt
    plaintext ← ok_or (c.open_sealed key nonce ciphertext) wrong_passphrase
    try_into 32 (kdf (lit "decrypted plaintext is not 32 bytes")) plaintext

  unfoldable pub decrypt : KeystoreFile → Text → Result Bytes KeystoreError
  decrypt file passphrase =
      if not (file.version == 1)
      then err (kdf (lit "unsupported keystore version " ++ to_string file.version))
      else do
        salt_vec ← ok_or (c.b64_decode file.salt_b64) base64
        nonce_vec ← ok_or (c.b64_decode file.nonce_b64) base64
        ciphertext ← ok_or (c.b64_decode file.ciphertext_b64) base64
        let parts = unseal passphrase salt_vec nonce_vec ciphertext
        if not (length ciphertext == 48) then err (bad_length (length ciphertext)) else parts

  unfoldable pub save : Text → KeystoreFile → Disk → Result (Unit {0}) KeystoreError × Disk
  save path file disk = elim (c.to_json file) [
    | err e ↦ (err (json e), disk)
    | ok bytes ↦ (map_err io (write path bytes disk).0, (write path bytes disk).1)
  ]

  unfoldable pub load : Text → Disk → Result KeystoreFile KeystoreError
  load path disk = do bytes ← map_err io (read path disk); map_err json (c.from_json bytes)
