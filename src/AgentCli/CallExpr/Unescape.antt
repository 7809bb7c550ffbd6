-- ===== src/AgentCli/CallExpr/Unescape.antt =====
-- The two replacements of `parse_call_expr` against the escapes of `json_str`.
use lp_0008_logos_agent_modu.AgentCli.CallExpr.{drop_last, slice_inner, unescape}
use lp_0008_logos_agent_modu.AgentCli.JsonStr.{push_escaped, escaped, json_str, json_str-escaped}
use lp_0008_logos_agent_modu.Base.{
  ℕ, ◌≤◌, ◌≡◌, refl, ap, ◌∙◌, false, some, [], ◌∷◌, ◌++◌, arith, ◌==◌, if◌then◌else◌, All, Text,
}
use lp_0008_logos_agent_modu.Std.Replace.{replace, replace-match, replace-skip, replace-nil}
use lp_0008_logos_agent_modu.Std.Strings.{starts_with}
use mathlib.Core.List.{flat_map}

-- No control character.
abbrev pub Printable : Text → Type 0
Printable = All (λ c. 0x20 ≤ c)

abbrev unquoted : Text → Text
unquoted = replace (b'\\' ∷ b'"' ∷ []) (b'"' ∷ [])

abbrev unslashed : Text → Text
unslashed = replace (b'\\' ∷ b'\\' ∷ []) (b'\\' ∷ [])

-- What is left of an escape after the first replacement.
abbrev half : ℕ → Text
half c = if c == b'\\' then b'\\' ∷ b'\\' ∷ [] else c ∷ []

abbrev halves : Text → Text
halves [] = []
halves (c ∷ s) = half c ++ halves s

pub escaped-cons : (c : ℕ) (s : Text) → escaped (c ∷ s) ≡ push_escaped c ++ escaped s
unfolding escaped flat_map
escaped-cons c s = refl

pub escaped-nil : escaped [] ≡ []
unfolding escaped flat_map
escaped-nil = refl

-- An escaped text never begins with a quote.
escaped_head : (s : Text) → starts_with (b'"' ∷ []) (escaped s) ≡ false
unfolding push_escaped
escaped_head [] = rw escaped-nil
escaped_head (c ∷ s) = rw escaped-cons (ground arith)

unquoted-push_escaped :
    (c : ℕ) (s : Text)
    → 0x20 ≤ c
    → unquoted (push_escaped c ++ escaped s) ≡ half c ++ unquoted (escaped s)
unfolding push_escaped
unquoted-push_escaped c s h = ground (
  arith,
  replace-match b'\\' b'"' (b'"' ∷ []) (escaped s),
  replace-skip b'\\' b'"' (b'"' ∷ []) b'\\' (b'\\' ∷ escaped s),
  replace-skip b'\\' b'"' (b'"' ∷ []) b'\\' (escaped s),
  replace-skip b'\\' b'"' (b'"' ∷ []) c (escaped s),
  escaped_head s,
)

unquoted-escaped : (s : Text) → Printable s → unquoted (escaped s) ≡ halves s
unquoted-escaped [] _ = rw (escaped-nil, replace-nil)
unquoted-escaped (c ∷ s) (h, hs) =
    rw (escaped-cons, unquoted-push_escaped c s h, unquoted-escaped s hs)

unslashed-half : (c : ℕ) (s : Text) → unslashed (half c ++ s) ≡ c ∷ unslashed s
unslashed-half c s =
    ground
      (arith, replace-match b'\\' b'\\' (b'\\' ∷ []) s, replace-skip b'\\' b'\\' (b'\\' ∷ []) c s)

unslashed-halves : (s : Text) → unslashed (halves s) ≡ s
unslashed-halves [] = replace-nil _ _
unslashed-halves (c ∷ s) = unslashed-half c (halves s) ∙ ap (λ t. c ∷ t) (unslashed-halves s)

-- Without control characters, the two replacements undo the escapes.
pub unescape-escaped : (s : Text) → Printable s → unescape (escaped s) ≡ s
unfolding unescape
unescape-escaped s h = rw (unquoted-escaped s h) (unslashed-halves s)

drop_last-append : (s : Text) (c : ℕ) → drop_last (s ++ c ∷ []) ≡ s
drop_last-append [] c = refl
drop_last-append (a ∷ []) c = refl
drop_last-append (a ∷ b ∷ s) c = ap (λ t. a ∷ t) (drop_last-append (b ∷ s) c)

slice_inner_wrapped : (c d : ℕ) (s : Text) → slice_inner (c ∷ (s ++ d ∷ [])) ≡ some s
slice_inner_wrapped c d [] = refl
slice_inner_wrapped c d (a ∷ s) = ap some (drop_last-append (a ∷ s) d)

pub slice_inner-json_str : (s : Text) → slice_inner (json_str s) ≡ some (escaped s)
slice_inner-json_str s = rw json_str-escaped (slice_inner_wrapped b'"' b'"' (escaped s))
