-- ===== src/Keys/Tests.antt =====
-- Runs of the key functions, and the theorems at concrete data.
mod Sha2
mod Base58
mod Vectors
use lp_0008_logos_agent_modu.Base.{
  ℕ, ◌≡◌, refl, ◌≢◌, none, some, map, arith, length, replicate, ok, err, Text,
}
use lp_0008_logos_agent_modu.Std.Strings.{as_bytes, utf8_char, len}
use lp_0008_logos_agent_modu.Keys.{
  Bytes, AreBytes, invalid_hex, hex_nibble, cons_byte, decode_chunks, from_hex, to_hex, npk_input,
  account_input,
}
use lp_0008_logos_agent_modu.Keys.Hex.{from_hex-to_hex, from_hex-ne-none, to_hex-from_hex, to_lower}

abbrev seven : Bytes
seven = replicate 32 0x7f

abbrev upper : Text
upper = replicate 64 b'A'

read_upper : from_hex upper ≡ some (ok (replicate 32 0xaa))
unfolding from_hex decode_chunks hex_nibble cons_byte as_bytes utf8_char len
read_upper = refl

-- Thirty-two letters of two bytes pass the test of the length, and their first byte is refused.
read_accents : from_hex (replicate 32 0xe9) ≡ some (err (invalid_hex 0xc3))
unfolding from_hex decode_chunks hex_nibble cons_byte as_bytes utf8_char len
read_accents = refl

from_hex-to_hex_example : from_hex (to_hex seven) ≡ some (ok seven)
from_hex-to_hex_example = from_hex-to_hex seven (omega arith) refl

from_hex-ne-none_example : from_hex (replicate 32 0xe9) ≢ none
from_hex-ne-none_example = from_hex-ne-none (replicate 32 0xe9)

to_hex-from_hex_example :
    (to_hex (replicate 32 0xaa) ≡ map to_lower (as_bytes upper))
    × AreBytes (replicate 32 0xaa)
    × (length {A = ℕ} (replicate 32 0xaa) ≡ 32)
to_hex-from_hex_example = to_hex-from_hex upper read_upper
