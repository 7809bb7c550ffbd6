-- ===== src/AgentCli/JsonStr/Decode.antt =====
-- A reader of JSON string literals by RFC 8259, against which `json_str` is measured.
use lp_0008_logos_agent_modu.Base.{
  ℕ, zero, suc, ◌+◌, ◌-◌, ◌*◌, ◌/◌, ◌%◌, ◌≤◌, ◌<◌, ◌≡◌, refl, ap, ◌∙◌, ◌≢◌, ◌&&◌, Bool, false,
  Option, none, some, [], ◌∷◌, ◌++◌, append-nil, append_assoc, arith, ltb, leb, ◌==◌, if◌then◌else◌,
  Text,
}
use lp_0008_logos_agent_modu.AgentCli.JsonStr.{
  hex_digit, format_04x, push_escaped, escaped, json_str, json_str-escaped,
}
use mathlib.Core.List.{flat_map}

-- Where the reader stands: between characters, behind a backslash, or in the digits of a
-- `\u` escape, with the number of digits to come and the value so far. After the first half of a
-- surrogate pair, it expects the backslash, the `u` and the digits of the second half.
pub data Mode : Type 0 where
  plain behind : Mode
  digits : ℕ → ℕ → Mode
  halfway halfway_u : ℕ → Mode
  second : ℕ → ℕ → ℕ → Mode

abbrev pub is_first_half : ℕ → Bool
is_first_half n = leb 0xD800 n && leb n 0xDBFF

abbrev pub is_second_half : ℕ → Bool
is_second_half n = leb 0xDC00 n && leb n 0xDFFF

unfoldable pub hex_value : ℕ → Option ℕ
hex_value c =
    if leb b'0' c && leb c b'9'
    then some (c - b'0')
    else if leb b'a' c && leb c b'f'
    then some (c - b'a' + 10)
    else if leb b'A' c && leb c b'F'
    then some (c - b'A' + 10)
    else none

unfoldable pub simple_escape : ℕ → Option ℕ
simple_escape c =
    if c == b'"'
    then some b'"'
    else if c == b'\\'
    then some b'\\'
    else if c == b'/'
    then some b'/'
    else if c == b'b'
    then some 8
    else if c == b'f'
    then some 12
    else if c == b'n'
    then some 10
    else if c == b'r'
    then some 13
    else if c == b't'
    then some 9
    else none

unfoldable pub read : Mode → Text → Text → Option (Text × Text)
unfolding simple_escape
read plain [] out = none
read plain (c ∷ s) out =
    let escape = read behind s out in
    let next = read plain s (out ++ c ∷ []) in
    if c == b'"'
    then some (out, s)
    else if c == b'\\'
    then escape
    else if ltb c 0x20
    then none
    else next
read behind [] out = none
read behind (c ∷ s) out =
    let unicode = read (digits 3 0) s out in
    let simple : Option (Text × Text) = elim (simple_escape c) [
      | none ↦ none
      | some d ↦ read plain s (out ++ d ∷ [])
    ] in
    if c == b'u' then unicode else simple
read (digits k v) [] out = none
read (digits zero v) (c ∷ s) out = elim (hex_value c) [
  | none ↦ none
  | some d ↦
      let joined = read (halfway (v * 16 + d)) s out in
      let next = read plain s (out ++ (v * 16 + d) ∷ []) in
      if is_first_half (v * 16 + d)
      then joined
      else if is_second_half (v * 16 + d)
      then none
      else next
]
read (digits (suc k) v) (c ∷ s) out = elim (hex_value c) [
  | none ↦ none
  | some d ↦ read (digits k (v * 16 + d)) s out
]
read (halfway h) [] out = none
read (halfway h) (c ∷ s) out =
    let rest = read (halfway_u h) s out in if c == b'\\' then rest else none
read (halfway_u h) [] out = none
read (halfway_u h) (c ∷ s) out =
    let rest = read (second h 3 0) s out in if c == b'u' then rest else none
read (second h k v) [] out = none
read (second h zero v) (c ∷ s) out = elim (hex_value c) [
  | none ↦ none
  | some d ↦
      let low = v * 16 + d in
      let next = read plain s (out ++ (0x10000 + (h - 0xD800) * 0x400 + (low - 0xDC00)) ∷ []) in
      if is_second_half low then next else none
]
read (second h (suc k) v) (c ∷ s) out = elim (hex_value c) [
  | none ↦ none
  | some d ↦ read (second h k (v * 16 + d)) s out
]

-- The text that a literal stands for, and what follows the literal.
unfoldable pub read_literal : Text → Option (Text × Text)
read_literal [] = none
read_literal (c ∷ s) = let body = read plain s [] in if c == b'"' then body else none

pub read_literal_quote : (s : Text) → read_literal (b'"' ∷ s) ≡ read plain s []
unfolding read_literal
read_literal_quote s = refl

hex_value-hex_digit : (d : ℕ) → d < 16 → hex_value (hex_digit d) ≡ some d
unfolding hex_value hex_digit
hex_value-hex_digit d h = ground arith

read-hex_digit :
    (d k v : ℕ) (s out : Text)
    → d < 16
    → read (digits (suc k) v) (hex_digit d ∷ s) out ≡ read (digits k (v * 16 + d)) s out
unfolding read
read-hex_digit d k v s out h = rw (hex_value-hex_digit d h, read)

read-hex_digit_last :
    (d v : ℕ) (s out : Text)
    → d < 16
    → v * 16 + d < 0xD800
    → read (digits zero v) (hex_digit d ∷ s) out ≡ read plain s (out ++ (v * 16 + d) ∷ [])
unfolding read
read-hex_digit_last d v s out h low =
    let first : is_first_half (v * 16 + d) ≡ false = ground arith in
    let other : is_second_half (v * 16 + d) ≡ false = ground arith in
    rw (read, hex_value-hex_digit d h, first, other) refl

read_unicode : (s out : Text) → read plain (b'\\' ∷ b'u' ∷ s) out ≡ read (digits 3 0) s out
unfolding read
read_unicode [] out = refl
read_unicode (c ∷ s) out = refl

read_control :
    (c : ℕ) (s out : Text)
    → c < 0x20
    → read plain (b'\\' ∷ b'u' ∷ format_04x c ++ s) out ≡ read plain s (out ++ c ∷ [])
unfolding format_04x
read_control c s out h =
    read_unicode _ out
    ∙ read-hex_digit (c / 4096) 2 0 _ out (omega arith)
    ∙ read-hex_digit (c / 256 % 16) 1 _ _ out (omega arith)
    ∙ read-hex_digit (c / 16 % 16) 0 _ _ out (omega arith)
    ∙ read-hex_digit_last (c % 16) _ s out (omega arith) (omega arith)
    ∙ ap (λ n. read plain s (out ++ n ∷ [])) (omega arith)

module _ (s out : Text) where
  pub read_quote : read plain (b'\\' ∷ b'"' ∷ s) out ≡ read plain s (out ++ b'"' ∷ [])
  unfolding read
  read_quote = refl

  pub read_backslash : read plain (b'\\' ∷ b'\\' ∷ s) out ≡ read plain s (out ++ b'\\' ∷ [])
  unfolding read
  read_backslash = refl

  read_newline : read plain (b'\\' ∷ b'n' ∷ s) out ≡ read plain s (out ++ b'\n' ∷ [])
  unfolding read
  read_newline = refl

  read_return : read plain (b'\\' ∷ b'r' ∷ s) out ≡ read plain s (out ++ b'\r' ∷ [])
  unfolding read
  read_return = refl

  read_tab : read plain (b'\\' ∷ b't' ∷ s) out ≡ read plain s (out ++ b'\t' ∷ [])
  unfolding read
  read_tab = refl

  pub read_plain :
      (c : ℕ)
      → c ≢ b'"'
      → c ≢ b'\\'
      → 0x20 ≤ c
      → read plain (c ∷ s) out ≡ read plain s (out ++ c ∷ [])
  unfolding read
  read_plain c h k l = ground arith

  pub read_end : read plain (b'"' ∷ s) out ≡ some (out, s)
  unfolding read
  read_end = refl

  -- A control character is refused.
  pub read_control_char : (c : ℕ) → c < 0x20 → read plain (c ∷ s) out ≡ none
  unfolding read
  read_control_char c h = ground arith

read-push_escaped :
    (c : ℕ) (s out : Text) → read plain (push_escaped c ++ s) out ≡ read plain s (out ++ c ∷ [])
unfolding push_escaped
read-push_escaped c s out = ground (
  arith,
  read_quote s out,
  read_backslash s out,
  read_newline s out,
  read_return s out,
  read_tab s out,
  read_control c s out,
  read_plain s out c,
)

read-escaped :
    (s rest out : Text) → read plain (escaped s ++ b'"' ∷ rest) out ≡ some (out ++ s, rest)
unfolding escaped flat_map
read-escaped [] rest out = unfold read in rw append-nil
read-escaped (c ∷ s) rest out = simp (append_assoc, read-push_escaped, read-escaped s)

-- `json_str` writes a JSON string literal that stands for the given text, whatever characters it
-- holds, and a reader stops exactly at its end.
pub read_literal-json_str : (s rest : Text) → read_literal (json_str s ++ rest) ≡ some (s, rest)
unfolding read_literal
read_literal-json_str s rest = rw json_str-escaped (simp append_assoc (read-escaped s rest []))
