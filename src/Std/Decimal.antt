-- ===== src/Std/Decimal.antt =====
-- `u128::to_string` and `str::parse::<u128>`.
use native.Mathlib.Nat.{pow-suc}
use lp_0008_logos_agent_modu.Base.{
  ℕ, zero, suc, ◌+◌, ◌-◌, ◌*◌, ◌/◌, ◌%◌, ◌^◌, ◌≤◌, ◌<◌, ◌≡◌, refl, ap, ◌∙◌, inl, inr, Bool, ◌&&◌,
  Option, none, some, [], ◌∷◌, arith, ltb, leb, ◌==◌, if◌then◌else◌, Bool-cases, Text,
}

abbrev pub u128_mod : ℕ
u128_mod = 2 ^ 128

-- The last digits of a number, at most as many as the fuel, in front of those after them.
decimal_digits : ℕ → ℕ → Text → Text
decimal_digits zero n out = out
decimal_digits (suc f) n out =
    let next = (b'0' + n % 10) ∷ out in
    let rest = decimal_digits f (n / 10) next in if ltb n 10 then next else rest

-- A `u128` has 39 digits at most.
unfoldable pub to_string : ℕ → Text
unfolding decimal_digits
to_string n = decimal_digits 39 n []

abbrev is_digit : ℕ → Bool
is_digit c = leb b'0' c && leb c b'9'

-- `checked_mul` and `checked_add` of one digit after the other
scan : Text → ℕ → Option ℕ
scan [] n = some n
scan (c ∷ s) n =
    let m = n * 10 + (c - b'0') in
    let rest = scan s m in if is_digit c && ltb m u128_mod then rest else none

-- A leading plus sign is allowed, if a digit follows.
unfoldable pub parse_u128 : Text → Option ℕ
unfolding scan
parse_u128 [] = none
parse_u128 (c ∷ []) = scan (c ∷ []) 0
parse_u128 (c ∷ d ∷ s) = if c == b'+' then scan (d ∷ s) 0 else scan (c ∷ d ∷ s) 0

scan_digit :
    (n : ℕ) (out : Text) → n < u128_mod → scan ((b'0' + n % 10) ∷ out) (n / 10) ≡ scan out n
unfolding scan
scan_digit n out h = ground arith

scan-decimal_digits :
    (f n : ℕ) (out : Text)
    → n < 10 ^ f
    → n < u128_mod
    → scan (decimal_digits f n out) 0 ≡ scan out n
unfolding decimal_digits
scan-decimal_digits zero n out h l = ap (scan out) (omega arith)
scan-decimal_digits (suc f) n out h l =
    let smaller : n / 10 < 10 ^ f = omega (arith, pow-suc 10 f) in
    ground (arith, scan_digit n out, scan-decimal_digits f (n / 10) ((b'0' + n % 10) ∷ out) smaller)

-- A text that begins with a digit.
abbrev DigitFirst : Text → Type 0
DigitFirst [] = ⊥
DigitFirst (c ∷ s) = (b'0' ≤ c) × (c ≤ b'9')

decimal_digits-DigitFirst :
    (f n : ℕ) (out : Text) → DigitFirst out → DigitFirst (decimal_digits f n out)
unfolding decimal_digits
decimal_digits-DigitFirst zero n out h = h
decimal_digits-DigitFirst (suc f) n out h =
    let next = decimal_digits-DigitFirst f (n / 10) ((b'0' + n % 10) ∷ out) (omega arith) in
    elim (Bool-cases (ltb n 10)) [ inl e ↦ rw e (omega arith) | inr e ↦ rw e next ]

to_string-DigitFirst : (n : ℕ) → DigitFirst (to_string n)
unfolding to_string decimal_digits
to_string-DigitFirst n =
    let next = decimal_digits-DigitFirst 38 (n / 10) ((b'0' + n % 10) ∷ []) (omega arith) in
    elim (Bool-cases (ltb n 10)) [ inl e ↦ rw e (omega arith) | inr e ↦ rw e next ]

parse_u128-scan : (s : Text) → DigitFirst s → parse_u128 s ≡ scan s 0
unfolding parse_u128
parse_u128-scan (c ∷ []) h = refl
parse_u128-scan (c ∷ d ∷ s) h = ground arith
parse_u128-scan [] h = absurd h

-- Every `u128` is read back from its print.
pub parse_u128-to_string : (n : ℕ) → n < u128_mod → parse_u128 (to_string n) ≡ some n
parse_u128-to_string n h =
    parse_u128-scan (to_string n) (to_string-DigitFirst n)
    ∙ unfold to_string in scan-decimal_digits 39 n [] (omega arith) h ∙ unfold scan in refl

scan_bound : (s : Text) (n r : ℕ) → n < u128_mod → scan s n ≡ some r → r < u128_mod
unfolding scan
scan_bound [] n r l h = ground arith
scan_bound (c ∷ s) n r l h = ground (arith, scan_bound s (n * 10 + (c - b'0')) r)

-- What is parsed is below 2 ^ 128.
pub parse_u128_bound : (s : Text) {n : ℕ} → parse_u128 s ≡ some n → n < u128_mod
unfolding parse_u128
parse_u128_bound [] h = ground arith
parse_u128_bound (c ∷ []) {n} h = scan_bound (c ∷ []) 0 n (omega arith) h
parse_u128_bound (c ∷ d ∷ s) {n} h =
    ground (arith, scan_bound (d ∷ s) 0 n, scan_bound (c ∷ d ∷ s) 0 n)
