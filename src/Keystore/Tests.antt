-- ===== src/Keystore/Tests.antt =====
-- Runs of the keystore with small stand-ins for its crates, and the theorems at concrete data.
mod Units
use lp_0008_logos_agent_modu.Base.{
  ℕ, zero, suc, ◌+◌, ◌-◌, ◌%◌, ◌≡◌, refl, sym, ap, ◌↔◌, Option, none, some, [], ◌∷◌, ◌++◌, arith,
  if◌then◌else◌, length, take, drop, replicate, length-append, take-append, drop-append, Result, ok,
  err, ◌>>=◌, Text, lit, eq_text,
}
use lp_0008_logos_agent_modu.Keys.{Bytes}
use lp_0008_logos_agent_modu.Std.Strings.{as_bytes, utf8_char}
use lp_0008_logos_agent_modu.Std.Disk.{Disk, write, eq_text_refl}
use lp_0008_logos_agent_modu.Keystore.Crates.{KeystoreFile, Crypto, IsSound}
use lp_0008_logos_agent_modu.Keystore.{
  wrong_passphrase, derive_key, encrypt, decrypt, unseal, save, load,
}
use lp_0008_logos_agent_modu.Keystore.RoundTrip.{decrypt-load}
use lp_0008_logos_agent_modu.Keystore.Errors.{Parts, decrypt-Parts, decrypt-ok}

-- The tag repeats the length of the key.
abbrev tag : Bytes → Bytes
tag key = replicate 16 (length key)

abbrev seal : Bytes → Bytes → Bytes → Option Bytes
seal key nonce plain = some (plain ++ tag key)

abbrev open_sealed : Bytes → Bytes → Bytes → Option Bytes
open_sealed key nonce cipher =
    if eq_text (drop (length cipher - 16) cipher) (tag key)
    then some (take (length cipher - 16) cipher)
    else none

-- The fields one after the other, the first two texts behind their lengths.
abbrev to_json : KeystoreFile → Result Bytes Text
to_json file = ok (
    file.version
    ∷ length file.salt_b64
    ∷ length file.nonce_b64
    ∷ (file.salt_b64 ++ (file.nonce_b64 ++ file.ciphertext_b64)))

abbrev from_json : Bytes → Result KeystoreFile Text
from_json (v ∷ m ∷ n ∷ s) = ok (record {
  version = v;
  salt_b64 = take m s;
  nonce_b64 = take n (drop m s);
  ciphertext_b64 = drop n (drop m s);
})
from_json _ = err (lit "EOF")

abbrev pub crypto : Crypto
crypto = record {
  Rng = ℕ;
  fill_bytes = λ n rng. (replicate n (rng % 256), suc rng);
  argon2 = λ password salt. ok (password ++ salt);
  seal = seal;
  open_sealed = open_sealed;
  b64_encode = λ bytes. bytes;
  b64_decode = λ s. some s;
  to_json = to_json;
  from_json = from_json;
}

pub length-replicate : (n c : ℕ) → length (replicate n c) ≡ n
length-replicate zero c = refl
length-replicate (suc n) c = ap suc (length-replicate n c)

length-sealed : (key plain : Bytes) → length (plain ++ tag key) ≡ length plain + 16
length-sealed key plain = length-append plain (tag key)

open-seal : (key nonce plain : Bytes) → open_sealed key nonce (plain ++ tag key) ≡ some plain
open-seal key nonce plain =
    let cut : length (plain ++ tag key) - 16 ≡ length plain =
      omega (arith, length-sealed key plain) in
    rw cut (
      rw (drop-append plain (tag key))
        (rw (eq_text_refl (tag key)) (ap some (take-append plain (tag key)))))

ok-injective : {a b : Bytes} {r : Result Bytes Text} → r ≡ ok a → r ≡ ok b → a ≡ b
ok-injective h k = cc

some-injective : {A : Type 0} {a b : A} → some a ≡ some b → a ≡ b
some-injective h = cc

from_json-to_json :
    (file : KeystoreFile) {bytes : Bytes} → to_json file ≡ ok bytes → from_json bytes ≡ ok file
from_json-to_json file {bytes} h =
    let same = ok-injective refl h in
    rw (sym same) (
      rw (take-append file.salt_b64 (file.nonce_b64 ++ file.ciphertext_b64)) (
        rw (drop-append file.salt_b64 (file.nonce_b64 ++ file.ciphertext_b64)) (
          rw
            (
              take-append file.nonce_b64 file.ciphertext_b64,
              drop-append file.nonce_b64 file.ciphertext_b64,
            )
            refl)))

pub crypto-IsSound : IsSound crypto
crypto-IsSound = record {
  length-fill_bytes = λ n rng. length-replicate n (rng % 256);
  open-seal = λ key nonce plain cipher h. rw (sym (some-injective h)) (open-seal key nonce plain);
  length-seal = λ key nonce plain cipher h. rw (sym (some-injective h)) (length-sealed key plain);
  decode-encode = λ bytes. refl;
  from_json-to_json = λ file bytes h. from_json-to_json file h;
}

abbrev nsk : Bytes
nsk = replicate 32 9

abbrev key : Bytes
key = lit "pw" ++ replicate 16 5

abbrev key_file : KeystoreFile
key_file = record {
  version = 1;
  salt_b64 = replicate 16 5;
  nonce_b64 = replicate 12 6;
  ciphertext_b64 = nsk ++ tag key;
}

abbrev disk : Disk
disk = record {
  files = [];
  read_fault = λ path. none;
  write_fault = λ path. none;
  torn = λ path bytes. none;
  dir_fault = λ path. none;
}

encrypt_key : (encrypt crypto nsk (lit "pw") 5).0 ≡ ok key_file
unfolding encrypt derive_key as_bytes utf8_char
encrypt_key = refl

derive_pw : derive_key crypto (lit "pw") (replicate 16 5) ≡ ok key
unfolding derive_key as_bytes utf8_char
derive_pw = refl

save_key : (save crypto (lit "agent.key") key_file disk).0 ≡ ok tt
unfolding save write
save_key = refl

wrong_word : decrypt crypto key_file (lit "other") ≡ err wrong_passphrase
unfolding decrypt unseal derive_key as_bytes utf8_char
wrong_word = refl

right_word : decrypt crypto key_file (lit "pw") ≡ ok nsk
unfolding decrypt unseal derive_key as_bytes utf8_char
right_word = refl

decrypt-load_example :
    (load crypto (lit "agent.key") (save crypto (lit "agent.key") key_file disk).1 >>= λ f.
    decrypt crypto f (lit "pw"))
    ≡ ok nsk
decrypt-load_example =
    decrypt-load crypto crypto-IsSound nsk (lit "pw") 5 (lit "agent.key") disk refl encrypt_key
      save_key refl

key-Parts : Parts crypto key_file (replicate 16 5) (replicate 12 6) (nsk ++ tag key)
key-Parts = record {
  version = refl;
  salt_of = refl;
  nonce_of = refl;
  cipher_of = refl;
  length-salt = refl;
  length-nonce = refl;
  length-cipher = refl;
}

decrypt-Parts_example :
    ((decrypt crypto key_file (lit "pw") ≡ err wrong_passphrase)
      ↔ (crypto.open_sealed key (replicate 12 6) (nsk ++ tag key) ≡ none))
    × ((k : Bytes)
        → (decrypt crypto key_file (lit "pw") ≡ ok k)
          ↔ ((crypto.open_sealed key (replicate 12 6) (nsk ++ tag key) ≡ some k) × (length k ≡ 32)))
decrypt-Parts_example =
    decrypt-Parts crypto key_file (lit "pw") (replicate 16 5) (replicate 12 6) (nsk ++ tag key) key
      key-Parts derive_pw

decrypt-ok_example :
    (salt : Bytes) × (nonce : Bytes) × (cipher : Bytes) × Parts crypto key_file salt nonce cipher
    × (length nsk ≡ 32)
decrypt-ok_example = decrypt-ok crypto key_file (lit "pw") right_word
