-- ===== src/AgentCli/JsonStr.antt =====
-- `json_str` of agent-cli/src/main.rs, which writes a text as a JSON string literal.
pub mod Decode
pub mod Bytes
use lp_0008_logos_agent_modu.Base.{
  ℕ, ◌+◌, ◌-◌, ◌/◌, ◌%◌, ◌≡◌, sym, [], ◌∷◌, ◌++◌, append-nil, append_assoc, ltb, ◌==◌,
  if◌then◌else◌, Text,
}
use mathlib.Core.List.{flat_map}

-- A digit of `{:x}`.
unfoldable pub hex_digit : ℕ → ℕ
hex_digit n = if ltb n 10 then b'0' + n else b'a' + (n - 10)

-- `format!("{:04x}", n)` for a number below 2 ^ 16.
unfoldable pub format_04x : ℕ → Text
unfolding hex_digit
format_04x n =
    hex_digit (n / 4096)
    ∷ hex_digit (n / 256 % 16)
    ∷ hex_digit (n / 16 % 16)
    ∷ hex_digit (n % 16)
    ∷ []

-- What one round of the loop pushes.
unfoldable pub push_escaped : ℕ → Text
unfolding format_04x
push_escaped c =
    if c == b'"'
    then b'\\' ∷ b'"' ∷ []
    else if c == b'\\'
    then b'\\' ∷ b'\\' ∷ []
    else if c == b'\n'
    then b'\\' ∷ b'n' ∷ []
    else if c == b'\r'
    then b'\\' ∷ b'r' ∷ []
    else if c == b'\t'
    then b'\\' ∷ b't' ∷ []
    else if ltb c 0x20
    then b'\\' ∷ b'u' ∷ format_04x c
    else c ∷ []

-- `for c in s.chars()`
unfoldable pub escape_loop : Text → Text → Text
escape_loop [] out = out
escape_loop (c ∷ s) out = escape_loop s (out ++ push_escaped c)

unfoldable pub json_str : Text → Text
unfolding escape_loop push_escaped
json_str s = escape_loop s (b'"' ∷ []) ++ b'"' ∷ []

-- The characters between the quotes.
unfoldable pub escaped : Text → Text
unfolding flat_map
escaped s = flat_map push_escaped s

escape_loop-escaped : (s out : Text) → escape_loop s out ≡ out ++ escaped s
unfolding escape_loop escaped
escape_loop-escaped [] out = sym (append-nil out)
escape_loop-escaped (c ∷ s) out = simp (escape_loop-escaped s, append_assoc)

pub json_str-escaped : (s : Text) → json_str s ≡ b'"' ∷ (escaped s ++ b'"' ∷ [])
unfolding json_str
json_str-escaped s = rw escape_loop-escaped
