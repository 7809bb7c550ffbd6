-- ===== src/Keys/Tests/Vectors.antt =====
-- The unit tests of keys.rs: a test is true if it passes and false if it panics. They are run with
-- SHA-256 and base58 as the standards define them.
use lp_0008_logos_agent_modu.Base.{
  ◌≡◌, refl, Bool, true, false, not, ◌&&◌, none, some, [], ◌∷◌, ◌==◌, replicate, ok, err, lit,
  eq_text,
}
use lp_0008_logos_agent_modu.Std.Strings.{as_bytes, utf8_char, len}
use lp_0008_logos_agent_modu.Keys.{
  Bytes, Sha256, Base58, invalid_base58, invalid_length, invalid_hex, hex_nibble, cons_byte,
  decode_chunks, to_hex, format_02x, from_hex, npk_input, account_input, derive_npk,
  derive_account_id, to_base58, from_base58,
}
use lp_0008_logos_agent_modu.Keys.Tests.Sha2.{sha256}
use lp_0008_logos_agent_modu.Keys.Tests.Base58.{base58}

abbrev test_nsk : Bytes
test_nsk =
    57 ∷ 5 ∷ 64 ∷ 115 ∷ 153 ∷ 56 ∷ 184 ∷ 51 ∷ 207 ∷ 238 ∷ 99 ∷ 165 ∷ 147 ∷ 214 ∷ 213 ∷ 151 ∷ 30
    ∷ 251 ∷ 30 ∷ 196 ∷ 134 ∷ 22 ∷ 224 ∷ 211 ∷ 237 ∷ 120 ∷ 136 ∷ 225 ∷ 188 ∷ 220 ∷ 249 ∷ 28 ∷ []

abbrev expected_npk : Bytes
expected_npk =
    78 ∷ 20 ∷ 20 ∷ 5 ∷ 177 ∷ 198 ∷ 233 ∷ 100 ∷ 175 ∷ 134 ∷ 174 ∷ 200 ∷ 24 ∷ 205 ∷ 68 ∷ 215 ∷ 130
    ∷ 74 ∷ 35 ∷ 54 ∷ 154 ∷ 184 ∷ 219 ∷ 42 ∷ 168 ∷ 106 ∷ 126 ∷ 147 ∷ 133 ∷ 244 ∷ 18 ∷ 218 ∷ []

abbrev expected_account_id : Bytes
expected_account_id =
    139 ∷ 72 ∷ 194 ∷ 222 ∷ 215 ∷ 187 ∷ 147 ∷ 56 ∷ 55 ∷ 35 ∷ 222 ∷ 205 ∷ 156 ∷ 12 ∷ 204 ∷ 227 ∷ 166
    ∷ 44 ∷ 30 ∷ 81 ∷ 186 ∷ 14 ∷ 167 ∷ 234 ∷ 28 ∷ 236 ∷ 32 ∷ 213 ∷ 125 ∷ 251 ∷ 193 ∷ 233 ∷ []

unfoldable nsk_to_npk_matches_nssa_vector : Sha256 → Bool
nsk_to_npk_matches_nssa_vector sha = eq_text (derive_npk sha test_nsk) expected_npk

unfoldable npk_to_account_id_matches_nssa_vector : Sha256 → Bool
npk_to_account_id_matches_nssa_vector sha =
    eq_text (derive_account_id sha expected_npk) expected_account_id

unfoldable full_derivation_chain : Sha256 → Bool
full_derivation_chain sha =
    let npk = derive_npk sha test_nsk in eq_text (derive_account_id sha npk) expected_account_id

unfoldable base58_roundtrip : Base58 → Bool
base58_roundtrip b58 = elim (from_base58 b58 (to_base58 b58 expected_account_id)) [
  | err e ↦ false
  | ok decoded ↦ eq_text decoded expected_account_id
]

unfoldable hex_roundtrip : Bool
hex_roundtrip = (len (to_hex expected_npk) == 64) && (elim (from_hex (to_hex expected_npk)) [
  | none ↦ false
  | some (err e) ↦ false
  | some (ok decoded) ↦ eq_text decoded expected_npk
])

unfoldable wrong_passphrase_base58_rejected : Base58 → Bool
wrong_passphrase_base58_rejected b58 = elim (from_base58 b58 (lit "not_valid_base58_!@#")) [
  | err invalid_base58 ↦ true
  | err (invalid_length n) ↦ false
  | err (invalid_hex n) ↦ false
  | ok bytes ↦ false
]

unfoldable zero_nsk_derivation_is_deterministic : Sha256 → Bool
zero_nsk_derivation_is_deterministic sha =
    let nsk_a = replicate 32 0 in
    let nsk_b = replicate 32 0 in eq_text (derive_npk sha nsk_a) (derive_npk sha nsk_b)

unfoldable different_nsks_produce_different_npks : Sha256 → Bool
different_nsks_produce_different_npks sha =
    let nsk_a = replicate 32 1 in
    let nsk_b = replicate 32 2 in not (eq_text (derive_npk sha nsk_a) (derive_npk sha nsk_b))

npk_vector_run : nsk_to_npk_matches_nssa_vector sha256 ≡ true
unfolding nsk_to_npk_matches_nssa_vector derive_npk npk_input sha256
npk_vector_run = refl

account_id_vector_run : npk_to_account_id_matches_nssa_vector sha256 ≡ true
unfolding npk_to_account_id_matches_nssa_vector derive_account_id account_input sha256
account_id_vector_run = refl

chain_run : full_derivation_chain sha256 ≡ true
unfolding full_derivation_chain derive_npk npk_input derive_account_id account_input sha256
chain_run = refl

base58_run : base58_roundtrip base58 ≡ true
unfolding base58_roundtrip to_base58 from_base58 base58
base58_run = refl

hex_run : hex_roundtrip ≡ true
unfolding hex_roundtrip to_hex from_hex decode_chunks cons_byte hex_nibble as_bytes utf8_char len
    format_02x
hex_run = refl

rejected_run : wrong_passphrase_base58_rejected base58 ≡ true
unfolding wrong_passphrase_base58_rejected from_base58 base58
rejected_run = refl

deterministic_run : zero_nsk_derivation_is_deterministic sha256 ≡ true
unfolding zero_nsk_derivation_is_deterministic derive_npk npk_input sha256
deterministic_run = refl

different_run : different_nsks_produce_different_npks sha256 ≡ true
unfolding different_nsks_produce_different_npks derive_npk npk_input sha256
different_run = refl
