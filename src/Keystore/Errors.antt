-- ===== src/Keystore/Errors.antt =====
-- Which files `decrypt` accepts, and what its errors mean.
use lp_0008_logos_agent_modu.Base.{
  ◌≡◌, ◌↔◌, inl, inr, none, some, arith, Option-cases, length, ok, err, Text,
}
use lp_0008_logos_agent_modu.Keys.{Bytes}
use lp_0008_logos_agent_modu.Keystore.Crates.{KeystoreFile, Crypto}
use lp_0008_logos_agent_modu.Keystore.{wrong_passphrase, derive_key, unseal, decrypt}

module _ (c : Crypto) where
  -- The parts of a file that is well formed.
  pub record Parts (file : KeystoreFile) (salt nonce cipher : Bytes) : Type 0 where
    pub version : file.version ≡ 1
    pub salt_of : c.b64_decode file.salt_b64 ≡ some salt
    pub nonce_of : c.b64_decode file.nonce_b64 ≡ some nonce
    pub cipher_of : c.b64_decode file.ciphertext_b64 ≡ some cipher
    pub length-salt : length salt ≡ 16
    pub length-nonce : length nonce ≡ 12
    pub length-cipher : length cipher ≡ 48

  -- On a well-formed file, whose key derivation succeeds, `decrypt` answers by the authenticated
  -- decryption alone: the wrong passphrase is reported exactly when that fails, and a plaintext
  -- is returned exactly when it has 32 bytes.
  pub decrypt-Parts :
      (file : KeystoreFile) (passphrase : Text) (salt nonce cipher key : Bytes)
      → Parts file salt nonce cipher
      → derive_key c passphrase salt ≡ ok key
      → ((decrypt c file passphrase ≡ err wrong_passphrase)
          ↔ (c.open_sealed key nonce cipher ≡ none))
        × ((nsk : Bytes)
            → (decrypt c file passphrase ≡ ok nsk)
              ↔ ((c.open_sealed key nonce cipher ≡ some nsk) × (length nsk ≡ 32)))
  unfolding decrypt unseal
  decrypt-Parts file passphrase salt nonce cipher key p derived =
      (ground arith, λ nsk. ground arith)

  -- What a success of `decrypt` says of the decoded parts.
  decoded :
      (file : KeystoreFile) (passphrase : Text) {nsk : Bytes}
      → decrypt c file passphrase ≡ ok nsk
      → (file.version ≡ 1)
        × (salt : Bytes) × (nonce : Bytes) × (cipher : Bytes) × (c.b64_decode file.salt_b64
            ≡ some salt)
        × (c.b64_decode file.nonce_b64 ≡ some nonce)
        × (c.b64_decode file.ciphertext_b64 ≡ some cipher)
        × (length cipher ≡ 48)
        × (unseal c passphrase salt nonce cipher ≡ ok nsk)
  unfolding decrypt
  decoded file passphrase h = elim (Option-cases (c.b64_decode file.salt_b64)) [
    | inl missing ↦ absurd (ground arith)
    | inr (salt, s) ↦ elim (Option-cases (c.b64_decode file.nonce_b64)) [
      | inl missing ↦ absurd (ground arith)
      | inr (nonce, n) ↦ elim (Option-cases (c.b64_decode file.ciphertext_b64)) [
        | inl missing ↦ absurd (ground arith)
        | inr (cipher, t) ↦ (ground arith, salt, nonce, cipher, s, n, t, ground arith, ground arith)
      ]
    ]
  ]

  unseal_lengths :
      (passphrase : Text) (salt nonce cipher : Bytes) {nsk : Bytes}
      → unseal c passphrase salt nonce cipher ≡ ok nsk
      → (length salt ≡ 16) × (length nonce ≡ 12) × (length nsk ≡ 32)
  unfolding unseal
  unseal_lengths passphrase salt nonce cipher h = (ground arith, ground arith, ground arith)

  -- Whatever the file holds, a key comes only out of a well-formed file, and has 32 bytes.
  pub decrypt-ok :
      (file : KeystoreFile) (passphrase : Text) {nsk : Bytes}
      → decrypt c file passphrase ≡ ok nsk
      → (salt : Bytes) × (nonce : Bytes) × (cipher : Bytes) × Parts file salt nonce cipher
        × (length nsk ≡ 32)
  decrypt-ok file passphrase h =
      let (v, salt, nonce, cipher, s, n, t, lt, u) = decoded file passphrase h in
      let (ls, ln, lk) = unseal_lengths passphrase salt nonce cipher u in
      (
        salt,
        nonce,
        cipher,
        record {
          version = v;
          salt_of = s;
          nonce_of = n;
          cipher_of = t;
          length-salt = ls;
          length-nonce = ln;
          length-cipher = lt;
        },
        lk,
      )
