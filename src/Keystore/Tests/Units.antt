-- ===== src/Keystore/Tests/Units.antt =====
-- The unit tests of keystore.rs: a test is true if it passes and false if it panics. They are run
-- with stand-ins for the crates, whose tag depends on the key and on the plaintext.
use Prim.Native.Nat.{bit_xor}
use lp_0008_logos_agent_modu.Base.{
  ℕ, zero, suc, ◌+◌, ◌-◌, ◌%◌, ◌≡◌, refl, Bool, true, false, not, ◌&&◌, none, some, [], ◌∷◌, ◌++◌,
  ◌==◌, if◌then◌else◌, length, take, drop, replicate, Result, ok, err, Text, lit, eq_text,
}
use lp_0008_logos_agent_modu.Std.Strings.{as_bytes, utf8_char}
use lp_0008_logos_agent_modu.Keys.{Bytes}
use lp_0008_logos_agent_modu.Keystore.Crates.{KeystoreFile, Crypto}
use lp_0008_logos_agent_modu.Keystore.{
  KeystoreError, base64, encrypt_failed, wrong_passphrase, kdf, bad_length, io, json, derive_key,
  encrypt, decrypt, unseal,
}
use lp_0008_logos_agent_modu.Keystore.Tests.{crypto}

-- `*b = i as u8` for the 32 bytes, from the given one on.
count_up : ℕ → ℕ → Bytes
count_up zero i = []
count_up (suc n) i = i % 256 ∷ count_up n (suc i)

unfoldable dummy_nsk : Bytes
unfolding count_up
dummy_nsk = count_up 32 0

is_wrong_passphrase : Result Bytes KeystoreError → Bool
is_wrong_passphrase (ok nsk) = false
is_wrong_passphrase (err base64) = false
is_wrong_passphrase (err encrypt_failed) = false
is_wrong_passphrase (err wrong_passphrase) = true
is_wrong_passphrase (err (kdf m)) = false
is_wrong_passphrase (err (bad_length n)) = false
is_wrong_passphrase (err (io m)) = false
is_wrong_passphrase (err (json m)) = false

is_key : Bytes → Result Bytes KeystoreError → Bool
is_key nsk (ok recovered) = eq_text recovered nsk
is_key nsk (err e) = false

-- `ct[10] ^= 0xFF`
flip : ℕ → Bytes → Bytes
flip n [] = []
flip zero (b ∷ bs) = bit_xor b 0xFF ∷ bs
flip (suc n) (b ∷ bs) = b ∷ flip n bs

module _ (c : Crypto) (rng : c.Rng) where
  -- `encrypt(&nsk, passphrase).expect(…)`, and what is done with the file.
  abbrev encrypted : Text → (KeystoreFile → Bool) → Bool
  encrypted passphrase k = elim (encrypt c dummy_nsk passphrase rng).0 [
    | err e ↦ false
    | ok file ↦ k file
  ]

  unfoldable encrypt_decrypt_roundtrip : Bool
  unfolding is_key
  encrypt_decrypt_roundtrip =
      let passphrase = lit "correct horse battery staple" in
      encrypted passphrase (λ file.
        (file.version == 1)
        && (elim (c.b64_decode file.ciphertext_b64) [
          | none ↦ false
          | some ct_bytes ↦ length ct_bytes == 48
        ])
        && is_key dummy_nsk (decrypt c file passphrase))

  unfoldable wrong_passphrase_is_rejected : Bool
  unfolding is_wrong_passphrase
  wrong_passphrase_is_rejected =
      encrypted (lit "right passphrase")
        (λ file. is_wrong_passphrase (decrypt c file (lit "wrong passphrase")))

  unfoldable different_encryptions_of_same_nsk_differ : Bool
  different_encryptions_of_same_nsk_differ =
      let pass = lit "passphrase" in
      encrypted pass (λ f1. elim (encrypt c dummy_nsk pass (encrypt c dummy_nsk pass rng).1).0 [
        | err e ↦ false
        | ok f2 ↦
            not (eq_text f1.ciphertext_b64 f2.ciphertext_b64)
            && not (eq_text f1.salt_b64 f2.salt_b64)
      ])

  unfoldable tampered_ciphertext_is_rejected : Bool
  unfolding is_wrong_passphrase flip
  tampered_ciphertext_is_rejected = encrypted (lit "pass") (λ file.
      elim (c.b64_decode file.ciphertext_b64) [
        | none ↦ false
        | some ct ↦
            is_wrong_passphrase
              (decrypt c (record file { ciphertext_b64 = c.b64_encode (flip 10 ct) }) (lit "pass"))
      ])

  unfoldable json_roundtrip : Bool
  unfolding is_key
  json_roundtrip = encrypted (lit "pass") (λ file. elim (c.to_json file) [
    | err e ↦ false
    | ok bytes ↦ elim (c.from_json bytes) [
      | err e ↦ false
      | ok restored ↦ is_key dummy_nsk (decrypt c restored (lit "pass"))
    ]
  ])

abbrev sum : Bytes → ℕ
sum [] = 0
sum (b ∷ bs) = b + sum bs

-- The first bytes of the key, and the sum of the plaintext.
abbrev tag : Bytes → Bytes → Bytes
tag key plain = take 15 (key ++ replicate 15 0) ++ (sum plain % 256 ∷ [])

abbrev tagged : Crypto
tagged = record crypto {
  seal = λ key nonce plain. some (plain ++ tag key plain);
  open_sealed = λ key nonce cipher.
      let plain = take (length cipher - 16) cipher in
      if eq_text (drop (length cipher - 16) cipher) (tag key plain) then some plain else none;
}

roundtrip_run : encrypt_decrypt_roundtrip tagged 5 ≡ true
unfolding encrypt_decrypt_roundtrip dummy_nsk encrypt decrypt unseal derive_key as_bytes utf8_char
roundtrip_run = refl

wrong_run : wrong_passphrase_is_rejected tagged 5 ≡ true
unfolding wrong_passphrase_is_rejected dummy_nsk encrypt decrypt unseal derive_key as_bytes
    utf8_char
wrong_run = refl

different_run : different_encryptions_of_same_nsk_differ tagged 5 ≡ true
unfolding different_encryptions_of_same_nsk_differ dummy_nsk encrypt derive_key as_bytes utf8_char
different_run = refl

tampered_run : tampered_ciphertext_is_rejected tagged 5 ≡ true
unfolding tampered_ciphertext_is_rejected dummy_nsk encrypt decrypt unseal derive_key as_bytes
    utf8_char
tampered_run = refl

json_run : json_roundtrip tagged 5 ≡ true
unfolding json_roundtrip dummy_nsk encrypt decrypt unseal derive_key as_bytes utf8_char
json_run = refl
