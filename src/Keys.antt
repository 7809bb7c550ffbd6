-- ===== src/Keys.antt =====
-- lez-wallet-module/lez-wallet-core/src/keys.rs: key derivation and the text forms of keys.
pub mod Hex
mod Tests
use lp_0008_logos_agent_modu.Base.{
  ℕ, ◌+◌, ◌-◌, ◌/◌, ◌%◌, ◌<◌, ◌&&◌, Option, none, some, List, [], ◌∷◌, ◌++◌, ltb, leb, ◌==◌,
  if◌then◌else◌, length, replicate, All, Result, ok, err, Text, lit,
}
use lp_0008_logos_agent_modu.Std.Bits.{join_nibbles}
use lp_0008_logos_agent_modu.Std.Strings.{as_bytes, len}

abbrev pub Bytes : Type 0
Bytes = List ℕ

-- Every element is a byte.
abbrev pub AreBytes : Bytes → Type 0
AreBytes = All (λ b. b < 256)

pub data KeyDerivationError : Type 0 where
  invalid_base58 : KeyDerivationError
  invalid_length : ℕ → KeyDerivationError
  invalid_hex : ℕ → KeyDerivationError

unfoldable pub hex_nibble : ℕ → Result ℕ KeyDerivationError
hex_nibble b =
    if leb b'0' b && leb b b'9'
    then ok (b - b'0')
    else if leb b'a' b && leb b b'f'
    then ok (b - b'a' + 10)
    else if leb b'A' b && leb b b'F'
    then ok (b - b'A' + 10)
    else err (invalid_hex b)

-- A digit of `{:02x}`.
unfoldable pub hex_digit : ℕ → ℕ
hex_digit n = if ltb n 10 then b'0' + n else b'a' + (n - 10)

-- `format!("{b:02x}")`
unfoldable pub format_02x : ℕ → Text
unfolding hex_digit
format_02x b = hex_digit (b / 16) ∷ hex_digit (b % 16) ∷ []

-- The fold of `to_hex`, onto the text so far.
pub hex_fold : Bytes → Text → Text
hex_fold [] s = s
hex_fold (b ∷ bs) s = hex_fold bs (s ++ format_02x b)

unfoldable pub to_hex : Bytes → Text
unfolding hex_fold
to_hex bytes = hex_fold bytes []

-- One round of the loop: the first nibble, the second, and the rounds to come.
unfoldable pub cons_byte :
    Result ℕ KeyDerivationError
    → Result ℕ KeyDerivationError
    → Option (Result Bytes KeyDerivationError)
    → Option (Result Bytes KeyDerivationError)
cons_byte (err e) _ _ = some (err e)
cons_byte (ok hi) (err e) _ = some (err e)
cons_byte (ok hi) (ok lo) none = none
cons_byte (ok hi) (ok lo) (some (err e)) = some (err e)
cons_byte (ok hi) (ok lo) (some (ok bytes)) = some (ok (join_nibbles hi lo ∷ bytes))

-- A chunk of one byte: `chunk[1]` panics, unless the first nibble is refused before.
lone_byte : Result ℕ KeyDerivationError → Option (Result Bytes KeyDerivationError)
lone_byte (err e) = some (err e)
lone_byte (ok hi) = none

-- The loop over `chunks(2)`; `none` is a panic.
unfoldable pub decode_chunks : Bytes → Option (Result Bytes KeyDerivationError)
unfolding lone_byte
decode_chunks [] = some (ok [])
decode_chunks (h ∷ []) = lone_byte (hex_nibble h)
decode_chunks (h ∷ l ∷ s) =
    let rest = decode_chunks s in cons_byte (hex_nibble h) (hex_nibble l) rest

unfoldable pub from_hex : Text → Option (Result Bytes KeyDerivationError)
from_hex s = if len s == 64 then decode_chunks (as_bytes s) else some (err (invalid_length (len s)))

-- `Sha256`, a hasher that is fed piece by piece.
pub record Sha256 : Type 0 where
  pub digest : Bytes → Bytes

-- What `derive_npk` feeds to the hasher, in the order of its updates.
unfoldable pub npk_input : Bytes → Bytes
npk_input nsk = lit "LEE/keys" ++ (nsk ++ (7 ∷ replicate 23 0))

unfoldable pub derive_npk : Sha256 → Bytes → Bytes
derive_npk sha nsk = sha.digest (npk_input nsk)

abbrev pub account_prefix : Bytes
account_prefix = lit "/LEE/v0.3/AccountId/Private/" ++ (0 ∷ 0 ∷ 0 ∷ 0 ∷ [])

-- The buffer of 64 bytes: the prefix, and the key behind it.
unfoldable pub account_input : Bytes → Bytes
account_input npk = account_prefix ++ npk

unfoldable pub derive_account_id : Sha256 → Bytes → Bytes
derive_account_id sha npk = sha.digest (account_input npk)

-- The `base58` crate.
pub record Base58 : Type 0 where
  pub encode : Bytes → Text
  pub decode : Text → Option Bytes

unfoldable pub to_base58 : Base58 → Bytes → Text
to_base58 b58 bytes = b58.encode bytes

unfoldable pub from_base58 : Base58 → Text → Result Bytes KeyDerivationError
from_base58 b58 s = elim (b58.decode s) [
  | none ↦ err invalid_base58
  | some bytes ↦ if length bytes == 32 then ok bytes else err (invalid_length (length bytes))
]
