-- ===== src/Ffi/Envelope.antt =====
-- The error envelope as JSON.
use lp_0008_logos_agent_modu.Base.{
  ◌||◌, append-nil, ◌<◌, false, ℕ, ◌≤◌, Bool, true, none, leb, ◌&&◌, ◌==◌, if◌then◌else◌, ◌++◌,
  Bool-cases, inl, inr, drop, ◌≡◌, refl, ◌∙◌, some, [], ◌∷◌, append_assoc, arith, take, Text, lit,
}
use lp_0008_logos_agent_modu.Std.Replace.{replace, replace_char, replace-nil}
use lp_0008_logos_agent_modu.AgentCli.JsonStr.Decode.{
  plain, read, read_quote, read_backslash, read_plain, read_control_char, read_literal_quote,
  read_end, read_literal,
}
use lp_0008_logos_agent_modu.Ffi.{envelope, has_nul, cstring}

abbrev slashed : Text → Text
slashed = replace (b'\\' ∷ []) (b'\\' ∷ b'\\' ∷ [])

abbrev quoted : Text → Text
quoted = replace (b'"' ∷ []) (b'\\' ∷ b'"' ∷ [])

-- What the two replacements make of a character.
abbrev slash : ℕ → Text
slash c = if c == b'"' then b'\\' ∷ b'"' ∷ [] else if c == b'\\' then b'\\' ∷ b'\\' ∷ [] else c ∷ []

quoted-slashed_cons : (c : ℕ) (s : Text) → quoted (slashed (c ∷ s)) ≡ slash c ++ quoted (slashed s)
quoted-slashed_cons c s = ground (
  arith,
  replace_char b'\\' c (b'\\' ∷ b'\\' ∷ []) s,
  replace_char b'"' c (b'\\' ∷ b'"' ∷ []) (slashed s),
  replace_char b'"' b'\\' (b'\\' ∷ b'"' ∷ []) (slashed s),
  replace_char b'"' b'\\' (b'\\' ∷ b'"' ∷ []) (b'\\' ∷ slashed s),
)

read-slash :
    (c : ℕ) (s out : Text) → 0x20 ≤ c → read plain (slash c ++ s) out ≡ read plain s (out ++ c ∷ [])
read-slash c s out h = ground (arith, read_quote s out, read_backslash s out, read_plain s out c)

-- Whether no character is a control character.
abbrev pub is_printable : Text → Bool
is_printable [] = true
is_printable (c ∷ s) = leb 0x20 c && is_printable s

slash_control : (c : ℕ) → c < 0x20 → slash c ≡ c ∷ []
slash_control c h = ground arith

read-quoted :
    (s out : Text)
    → read plain (quoted (slashed s) ++ lit "\"}") out
      ≡ (if is_printable s then some (out ++ s, lit "}") else none)
read-quoted [] out = rw (replace-nil, replace-nil, append-nil) (read_end (lit "}") out)
read-quoted (c ∷ s) out = elim (Bool-cases (leb 0x20 c)) [
  | inl h ↦
      rw (quoted-slashed_cons, append_assoc, h)
        (read-slash c _ out (ground arith) ∙ rw (read-quoted s (out ++ c ∷ []), append_assoc) refl)
  | inr h ↦
      rw (quoted-slashed_cons, h, slash_control c (ground arith))
        (read_control_char _ out c (ground arith))
]

-- The error envelope of a message is a JSON object with the one field `error`, whose string stands
-- for the message, if the message has no control character; if it has one, the string is not valid.
pub read_literal-envelope :
    (msg : Text)
    → (take 10 (envelope msg) ≡ lit "{\"error\": ")
      × (read_literal (drop 10 (envelope msg))
          ≡ (if is_printable msg then some (msg, lit "}") else none))
unfolding envelope
read_literal-envelope msg = (refl, read_literal_quote _ ∙ read-quoted msg [])

pub envelope-drop : (msg : Text) → envelope msg ≡ lit "{\"error\": " ++ drop 10 (envelope msg)
unfolding envelope
envelope-drop msg = refl

pub envelope-drop_quote :
    (msg : Text) → envelope msg ≡ lit "{\"error\": \"" ++ drop 11 (envelope msg)
unfolding envelope
envelope-drop_quote msg = refl

pub drop-envelope : (msg : Text) → drop 10 (envelope msg) ≡ b'"' ∷ drop 11 (envelope msg)
unfolding envelope
drop-envelope msg = refl

has_nul-append : (s t : Text) → has_nul (s ++ t) ≡ (has_nul s || has_nul t)
has_nul-append [] t = refl
has_nul-append (c ∷ s) t = ground (arith, has_nul-append s t)

has_nul-quoted : (s : Text) → has_nul (quoted (slashed s)) ≡ has_nul s
has_nul-quoted [] = rw (replace-nil, replace-nil) refl
has_nul-quoted (c ∷ s) = rw (quoted-slashed_cons, has_nul-append) (ground (arith, has_nul-quoted s))

has_nul-envelope : (msg : Text) → has_nul (envelope msg) ≡ has_nul msg
unfolding envelope
has_nul-envelope msg =
    has_nul-append (quoted (slashed msg)) (lit "\"}") ∙ rw has_nul-quoted (ground arith)

-- The envelope of a message without nul characters is handed out as it is.
pub cstring-envelope : (msg : Text) → has_nul msg ≡ false → cstring (envelope msg) ≡ envelope msg
unfolding cstring
cstring-envelope msg h = rw (has_nul-envelope, h) refl
