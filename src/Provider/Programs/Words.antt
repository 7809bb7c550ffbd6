-- ===== src/Provider/Programs/Words.antt =====
-- Program ids as words, bytes and text.
use mathlib.Core.Path.{ap₂}
use lp_0008_logos_agent_modu.Base.{
  ℕ, ◌*◌, ◌<◌, ◌≡◌, refl, ap, List, [], ◌∷◌, arith, length, All, ok,
}
use lp_0008_logos_agent_modu.Keys.{Bytes, AreBytes, hex_fold}
use lp_0008_logos_agent_modu.Provider.Crates.{HexCodec}
use lp_0008_logos_agent_modu.Provider.Programs.{
  u32_mod, words_of_bytes, bytes_of_words, id_hex, parse_program_id,
}

-- `hex::decode` reads the digits of bytes.
abbrev pub DecodesHex : HexCodec → Type 0
DecodesHex hex = (bytes : Bytes) → AreBytes bytes → hex.decode (hex_fold bytes []) ≡ ok bytes

bytes_of_words-AreBytes : (ns : List ℕ) → AreBytes (bytes_of_words ns)
unfolding bytes_of_words
bytes_of_words-AreBytes [] = tt
bytes_of_words-AreBytes (n ∷ ns) =
    (omega arith, (omega arith, (omega arith, (omega arith, bytes_of_words-AreBytes ns))))

length-bytes_of_words : (ns : List ℕ) → length (bytes_of_words ns) ≡ 4 * length ns
unfolding bytes_of_words
length-bytes_of_words [] = refl
length-bytes_of_words (n ∷ ns) = omega (arith, length-bytes_of_words ns)

words_of_bytes-bytes_of_words :
    (ns : List ℕ) → All (λ n. n < u32_mod) ns → words_of_bytes (bytes_of_words ns) ≡ ns
unfolding words_of_bytes bytes_of_words
words_of_bytes-bytes_of_words [] h = refl
words_of_bytes-bytes_of_words (n ∷ ns) (h, hs) =
    ap₂ (λ m ms. m ∷ ms) (omega arith) (words_of_bytes-bytes_of_words ns hs)

-- The id of eight words that `program_deploy` returns is the id that `program_call` reads from it.
pub parse_program_id-id_hex :
    (hex : HexCodec) (program_id : List ℕ)
    → DecodesHex hex
    → All (λ n. n < u32_mod) program_id
    → length program_id ≡ 8
    → parse_program_id hex (id_hex program_id) ≡ ok program_id
unfolding parse_program_id id_hex
parse_program_id-id_hex hex program_id decodes small eight =
    let full : length (bytes_of_words program_id) ≡ 32 =
      omega (arith, length-bytes_of_words program_id) in
    rw (parse_program_id, decodes (bytes_of_words program_id) (bytes_of_words-AreBytes program_id))
      (rw full (ap ok (words_of_bytes-bytes_of_words program_id small)))
