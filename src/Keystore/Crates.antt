-- ===== src/Keystore/Crates.antt =====
-- The file format of keystore.rs, and the crates that it calls, as a parameter.
use lp_0008_logos_agent_modu.Base.{ℕ, ◌+◌, ◌≡◌, Option, some, length, Result, ok, Text}
use lp_0008_logos_agent_modu.Keys.{Bytes}

pub record KeystoreFile : Type 0 where
  pub version : ℕ
  pub salt_b64 : Text
  pub nonce_b64 : Text
  pub ciphertext_b64 : Text

-- `argon2`, `aes_gcm`, `base64`, `serde_json` and the random source of the operating system.
pub record Crypto : Type 1 where
  pub Rng : Type 0
  pub fill_bytes : ℕ → Rng → Bytes × Rng
  pub argon2 : Bytes → Bytes → Result Bytes Text
  pub seal : Bytes → Bytes → Bytes → Option Bytes
  pub open_sealed : Bytes → Bytes → Bytes → Option Bytes
  pub b64_encode : Bytes → Text
  pub b64_decode : Text → Option Bytes
  pub to_json : KeystoreFile → Result Bytes Text
  pub from_json : Bytes → Result KeystoreFile Text

-- What these crates document.
pub record IsSound (c : Crypto) : Type 0 where
  pub length-fill_bytes : (n : ℕ) (rng : c.Rng) → length (c.fill_bytes n rng).0 ≡ n
  pub open-seal :
      (key nonce plain cipher : Bytes)
      → c.seal key nonce plain ≡ some cipher
      → c.open_sealed key nonce cipher ≡ some plain
  -- the tag has 16 bytes
  pub length-seal :
      (key nonce plain cipher : Bytes)
      → c.seal key nonce plain ≡ some cipher
      → length cipher ≡ length plain + 16
  pub decode-encode : (bytes : Bytes) → c.b64_decode (c.b64_encode bytes) ≡ some bytes
  pub from_json-to_json :
      (file : KeystoreFile) (bytes : Bytes)
      → c.to_json file ≡ ok bytes
      → c.from_json bytes ≡ ok file
