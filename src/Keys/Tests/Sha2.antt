-- ===== src/Keys/Tests/Sha2.antt =====
-- SHA-256 by FIPS 180-4, to run the derivations of keys.rs on real data. The program takes it from
-- the crate `sha2`.
use Prim.Native.Nat.{bit_and, bit_xor}
use lp_0008_logos_agent_modu.Base.{
  ℕ, zero, suc, ◌+◌, ◌-◌, ◌*◌, ◌/◌, ◌%◌, ◌^◌, ◌≡◌, refl, List, [], ◌∷◌, ◌++◌, length, take, drop,
  replicate, lit,
}
use lp_0008_logos_agent_modu.Keys.{Bytes, Sha256}

abbrev word : ℕ
word = 4294967296

rotr : ℕ → ℕ → ℕ
rotr n x = x / 2 ^ n + (x * 2 ^ (32 - n)) % word

xor3 : ℕ → ℕ → ℕ → ℕ
xor3 a b c = bit_xor a (bit_xor b c)

nth : ℕ → List ℕ → ℕ
nth n [] = 0
nth zero (x ∷ xs) = x
nth (suc n) (x ∷ xs) = nth n xs

-- The word that enters the window of sixteen.
next_word : List ℕ → ℕ
unfolding rotr xor3 nth
next_word ws =
    let w1 = nth 1 ws in
    let w14 = nth 14 ws in
    (nth 0 ws
      + xor3 (rotr 7 w1) (rotr 18 w1) (w1 / 8)
      + nth 9 ws
      + xor3 (rotr 17 w14) (rotr 19 w14) (w14 / 1024))
    % word

tail : List ℕ → List ℕ
tail [] = []
tail (x ∷ xs) = xs

round : ℕ → ℕ → List ℕ → List ℕ
unfolding rotr xor3
round k w (a ∷ b ∷ c ∷ d ∷ e ∷ f ∷ g ∷ h ∷ []) =
    let choice = bit_xor (bit_and e f) (bit_and (word - 1 - e) g) in
    let majority = xor3 (bit_and a b) (bit_and a c) (bit_and b c) in
    let t1 = h + xor3 (rotr 6 e) (rotr 11 e) (rotr 25 e) + choice + k + w in
    let t2 = xor3 (rotr 2 a) (rotr 13 a) (rotr 22 a) + majority in
    (t1 + t2) % word ∷ a ∷ b ∷ c ∷ (d + t1) % word ∷ e ∷ f ∷ g ∷ []
round k w _ = []

rounds : List ℕ → List ℕ → List ℕ → List ℕ
unfolding nth next_word tail round
rounds [] ws state = state
rounds (k ∷ ks) ws state = rounds ks (tail ws ++ (next_word ws ∷ [])) (round k (nth 0 ws) state)

abbrev constants : List ℕ
constants =
    0x428A2F98 ∷ 0x71374491 ∷ 0xB5C0FBCF ∷ 0xE9B5DBA5 ∷ 0x3956C25B ∷ 0x59F111F1 ∷ 0x923F82A4
    ∷ 0xAB1C5ED5 ∷ 0xD807AA98 ∷ 0x12835B01 ∷ 0x243185BE ∷ 0x550C7DC3 ∷ 0x72BE5D74 ∷ 0x80DEB1FE
    ∷ 0x9BDC06A7 ∷ 0xC19BF174 ∷ 0xE49B69C1 ∷ 0xEFBE4786 ∷ 0x0FC19DC6 ∷ 0x240CA1CC ∷ 0x2DE92C6F
    ∷ 0x4A7484AA ∷ 0x5CB0A9DC ∷ 0x76F988DA ∷ 0x983E5152 ∷ 0xA831C66D ∷ 0xB00327C8 ∷ 0xBF597FC7
    ∷ 0xC6E00BF3 ∷ 0xD5A79147 ∷ 0x06CA6351 ∷ 0x14292967 ∷ 0x27B70A85 ∷ 0x2E1B2138 ∷ 0x4D2C6DFC
    ∷ 0x53380D13 ∷ 0x650A7354 ∷ 0x766A0ABB ∷ 0x81C2C92E ∷ 0x92722C85 ∷ 0xA2BFE8A1 ∷ 0xA81A664B
    ∷ 0xC24B8B70 ∷ 0xC76C51A3 ∷ 0xD192E819 ∷ 0xD6990624 ∷ 0xF40E3585 ∷ 0x106AA070 ∷ 0x19A4C116
    ∷ 0x1E376C08 ∷ 0x2748774C ∷ 0x34B0BCB5 ∷ 0x391C0CB3 ∷ 0x4ED8AA4A ∷ 0x5B9CCA4F ∷ 0x682E6FF3
    ∷ 0x748F82EE ∷ 0x78A5636F ∷ 0x84C87814 ∷ 0x8CC70208 ∷ 0x90BEFFFA ∷ 0xA4506CEB ∷ 0xBEF9A3F7
    ∷ 0xC67178F2 ∷ []

abbrev initial : List ℕ
initial =
    0x6A09E667 ∷ 0xBB67AE85 ∷ 0x3C6EF372 ∷ 0xA54FF53A ∷ 0x510E527F ∷ 0x9B05688C ∷ 0x1F83D9AB
    ∷ 0x5BE0CD19 ∷ []

add_words : List ℕ → List ℕ → List ℕ
add_words [] ys = []
add_words (x ∷ xs) [] = []
add_words (x ∷ xs) (y ∷ ys) = (x + y) % word ∷ add_words xs ys

words : Bytes → List ℕ
words (a ∷ b ∷ c ∷ d ∷ bytes) = (a * 16777216 + b * 65536 + c * 256 + d) ∷ words bytes
words _ = []

bytes_of : List ℕ → Bytes
bytes_of [] = []
bytes_of (w ∷ ws) = w / 16777216 ∷ w / 65536 % 256 ∷ w / 256 % 256 ∷ w % 256 ∷ bytes_of ws

-- The blocks of sixteen words, one after the other.
blocks : ℕ → List ℕ → List ℕ → List ℕ
unfolding rounds add_words
blocks zero ws state = state
blocks (suc n) ws state =
    blocks n (drop 16 ws) (add_words state (rounds constants (take 16 ws) state))

-- A one bit, zeros up to the last eight bytes of a block, and the length in bits.
pad : Bytes → Bytes
pad bytes =
    let bits = length bytes * 8 in
    bytes
    ++ (0x80
        ∷ (replicate ((119 - length bytes % 64) % 64) 0
            ++ (0 ∷ 0 ∷ 0 ∷ 0 ∷ 0 ∷ bits / 65536 % 256 ∷ bits / 256 % 256 ∷ bits % 256 ∷ [])))

unfoldable pub sha256 : Sha256
unfolding blocks words bytes_of pad
sha256 = record {
  digest = λ bytes. let ws = words (pad bytes) in bytes_of (blocks (length ws / 16) ws initial);
}

-- The digest of `abc` in the standard.
abc :
    sha256.digest (lit "abc")
    ≡ bytes_of (
        0xBA7816BF ∷ 0x8F01CFEA ∷ 0x414140DE ∷ 0x5DAE2223 ∷ 0xB00361A3 ∷ 0x96177A9C ∷ 0xB410FF61
        ∷ 0xF20015AD ∷ [])
unfolding sha256 bytes_of
abc = refl
