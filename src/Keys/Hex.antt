-- ===== src/Keys/Hex.antt =====
-- `to_hex` and `from_hex` of keys.rs.
use mathlib.Core.Path.{ap₂}
use lp_0008_logos_agent_modu.Base.{
  ℕ, ◌+◌, ◌-◌, ◌*◌, ◌/◌, ◌%◌, ◌<◌, length-map, ◌≡◌, refl, sym, ap, ◌∙◌, ◌≢◌, inl, inr, ◌&&◌, Option,
  none, some, [], ◌∷◌, ◌++◌, map, append-nil, append_assoc, arith, leb, ◌==◌, if◌then◌else◌, ==_iff,
  Bool-cases, length, All, Result, ok, err, Text,
}
use lp_0008_logos_agent_modu.Std.Bits.{join_nibbles, join_nibbles_lem, join_nibbles_sum}
use lp_0008_logos_agent_modu.Std.Strings.{as_bytes, as_bytes_ascii, len}
use lp_0008_logos_agent_modu.Keys.{
  Bytes, AreBytes, KeyDerivationError, hex_nibble, hex_digit, format_02x, hex_fold, cons_byte,
  lone_byte, to_hex, decode_chunks, from_hex,
}

-- The digits of the bytes, one byte after the other.
abbrev digits : Bytes → Text
digits [] = []
digits (b ∷ bs) = hex_digit (b / 16) ∷ hex_digit (b % 16) ∷ digits bs

hex_fold-digits : (bs : Bytes) (s : Text) → hex_fold bs s ≡ s ++ digits bs
unfolding hex_fold format_02x
hex_fold-digits [] s = sym (append-nil s)
hex_fold-digits (b ∷ bs) s = hex_fold-digits bs _ ∙ append_assoc s _ _

to_hex-digits : (bs : Bytes) → to_hex bs ≡ digits bs
unfolding to_hex
to_hex-digits bs = hex_fold-digits bs []

hex_nibble-hex_digit : (n : ℕ) → n < 16 → hex_nibble (hex_digit n) ≡ ok n
unfolding hex_nibble hex_digit
hex_nibble-hex_digit n h = ground arith

hex_digit-ascii : (n : ℕ) → n < 16 → hex_digit n < 0x80
unfolding hex_digit
hex_digit-ascii n h = ground arith

decode_chunks-digits : (bs : Bytes) → AreBytes bs → decode_chunks (digits bs) ≡ some (ok bs)
unfolding decode_chunks cons_byte
decode_chunks-digits [] _ = refl
decode_chunks-digits (b ∷ bs) (h, hs) = ground (
  arith,
  hex_nibble-hex_digit (b / 16),
  hex_nibble-hex_digit (b % 16),
  decode_chunks-digits bs hs,
  join_nibbles_lem b h,
)

pub decode_chunks-hex_fold :
    (bs : Bytes) → AreBytes bs → decode_chunks (hex_fold bs []) ≡ some (ok bs)
decode_chunks-hex_fold bs h = rw (hex_fold-digits bs []) (decode_chunks-digits bs h)

digits-ascii : (bs : Bytes) → AreBytes bs → All (λ c. c < 0x80) (digits bs)
digits-ascii [] _ = tt
digits-ascii (b ∷ bs) (h, hs) = (
  hex_digit-ascii (b / 16) (omega arith),
  (hex_digit-ascii (b % 16) (omega arith), digits-ascii bs hs),
)

length-digits : (bs : Bytes) → length (digits bs) ≡ 2 * length bs
length-digits [] = omega arith
length-digits (b ∷ bs) = omega (arith, length-digits bs)

-- A key of 32 bytes is read back from its hexadecimal form.
pub from_hex-to_hex :
    (bytes : Bytes) → AreBytes bytes → length bytes ≡ 32 → from_hex (to_hex bytes) ≡ some (ok bytes)
unfolding from_hex len
from_hex-to_hex bytes h k =
    rw (to_hex-digits, as_bytes_ascii (digits bytes) (digits-ascii bytes h))
      (let full : length (digits bytes) ≡ 64 = omega (arith, length-digits bytes) in
        rw full (decode_chunks-digits bytes h))

-- The lower case of a hexadecimal digit.
abbrev pub to_lower : ℕ → ℕ
to_lower c = if leb b'A' c && leb c b'F' then c + 32 else c

hex_digit-hex_nibble : (c n : ℕ) → hex_nibble c ≡ ok n → (n < 16) × (hex_digit n ≡ to_lower c)
unfolding hex_nibble hex_digit
hex_digit-hex_nibble c n h = ground arith

-- What a successful round has read.
cons_byte-ok :
    (h l : Result ℕ KeyDerivationError) (r : Option (Result Bytes KeyDerivationError)) (bs : Bytes)
    → cons_byte h l r ≡ some (ok bs)
    → (hi : ℕ) × (lo : ℕ) × (rest : Bytes) × (h ≡ ok hi)
      × (l ≡ ok lo)
      × (r ≡ some (ok rest))
      × (bs ≡ join_nibbles hi lo ∷ rest)
unfolding cons_byte
cons_byte-ok (err e) l r bs h = absurd (cc)
cons_byte-ok (ok hi) (err e) r bs h = absurd (cc)
cons_byte-ok (ok hi) (ok lo) none bs h = absurd (cc)
cons_byte-ok (ok hi) (ok lo) (some (err e)) bs h = absurd (cc)
cons_byte-ok (ok hi) (ok lo) (some (ok rest)) bs h = (hi, lo, rest, refl, refl, refl, cc)

lone_byte-ne-ok : (h : Result ℕ KeyDerivationError) (bs : Bytes) → lone_byte h ≢ some (ok bs)
unfolding lone_byte
lone_byte-ne-ok (err e) bs h = absurd (cc)
lone_byte-ne-ok (ok hi) bs h = absurd (cc)

hex_digits-join :
    (hi lo : ℕ)
    → hi < 16
    → lo < 16
    → (join_nibbles hi lo < 256) × (join_nibbles hi lo / 16 ≡ hi) × (join_nibbles hi lo % 16 ≡ lo)
hex_digits-join hi lo h k = omega (arith, join_nibbles_sum hi lo h k)

digits-decode_chunks :
    (s bs : Bytes) → decode_chunks s ≡ some (ok bs) → (digits bs ≡ map to_lower s) × AreBytes bs
unfolding decode_chunks
digits-decode_chunks [] bs h = let empty : bs ≡ [] = cc in rw empty (refl, tt)
digits-decode_chunks (c ∷ []) bs h = absurd (lone_byte-ne-ok (hex_nibble c) bs h)
digits-decode_chunks (c ∷ d ∷ s) bs e =
    let (hi, lo, rest, h, l, r, q) =
      cons_byte-ok (hex_nibble c) (hex_nibble d) (decode_chunks s) bs e in
    let (digits_rest, bytes_rest) = digits-decode_chunks s rest r in
    let (hi_small, hi_digit) = hex_digit-hex_nibble c hi h in
    let (lo_small, lo_digit) = hex_digit-hex_nibble d lo l in
    let (fits, high, low) = hex_digits-join hi lo hi_small lo_small in
    rw (q, high, low)
      (ap₂ (λ a t. a ∷ t) hi_digit (ap₂ (λ a t. a ∷ t) lo_digit digits_rest), (fits, bytes_rest))

cons_byte-ne-none :
    (h l : Result ℕ KeyDerivationError) (r : Option (Result Bytes KeyDerivationError))
    → r ≢ none
    → cons_byte h l r ≢ none
unfolding cons_byte
cons_byte-ne-none (err e) l r n = cc
cons_byte-ne-none (ok hi) (err e) r n = cc
cons_byte-ne-none (ok hi) (ok lo) none n = n
cons_byte-ne-none (ok hi) (ok lo) (some (err e)) n = cc
cons_byte-ne-none (ok hi) (ok lo) (some (ok rest)) n = cc

-- An even number of bytes has no chunk of one byte.
decode_chunks-ne-none : (k : ℕ) (s : Bytes) → length s ≡ 2 * k → decode_chunks s ≢ none
unfolding decode_chunks
decode_chunks-ne-none k [] h = cc
decode_chunks-ne-none k (c ∷ []) h = absurd (omega arith)
decode_chunks-ne-none k (c ∷ d ∷ s) h =
    cons_byte-ne-none (hex_nibble c) (hex_nibble d) (decode_chunks s)
      (decode_chunks-ne-none (k - 1) s (omega arith))

-- `from_hex` never panics.
pub from_hex-ne-none : (s : Text) → from_hex s ≢ none
unfolding from_hex len
from_hex-ne-none s = elim (Bool-cases (length (as_bytes s) == 64)) [
  | inl even ↦ rw even (decode_chunks-ne-none 32 (as_bytes s) ((==_iff _ _).0 even))
  | inr odd ↦ rw odd (cc)
]

-- Where `from_hex` succeeds, the hexadecimal form of the result is the text in lower case, and the
-- result has 32 bytes.
pub to_hex-from_hex :
    (s : Text) {bytes : Bytes}
    → from_hex s ≡ some (ok bytes)
    → (to_hex bytes ≡ map to_lower (as_bytes s)) × AreBytes bytes × (length bytes ≡ 32)
unfolding from_hex len
to_hex-from_hex s {bytes} h = elim (Bool-cases (length (as_bytes s) == 64)) [
  | inr odd ↦ absurd (cc (rw odd at h))
  | inl even ↦
      let (same, small) = digits-decode_chunks (as_bytes s) bytes (rw even at h) in
      let long : length (as_bytes s) ≡ 64 = (==_iff _ _).0 even in
      (
        to_hex-digits bytes ∙ same,
        small,
        omega (
          arith,
          length-digits bytes,
          length-map to_lower (as_bytes s),
          ap (λ (t : Text). length t) same,
          long,
        ),
      )
]
