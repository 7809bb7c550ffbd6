-- ===== src/AgentCli/CallExpr.antt =====
-- `parse_call_expr` and `fund_call_expr` of agent-cli/src/main.rs.
pub mod Unescape
pub mod Pieces
pub mod Plain
pub mod Commas
use lp_0008_logos_agent_modu.AgentCli.JsonStr.{json_str}
use lp_0008_logos_agent_modu.Base.{
  ℕ, suc, ◌+◌, ◌-◌, ◌≡◌, refl, Bool, true, ◌&&◌, ◌||◌, Option, none, some, List, [], ◌∷◌, ◌++◌, leb,
  ◌==◌, if◌then◌else◌, take, drop, last?, Text, lit,
}
use lp_0008_logos_agent_modu.Std.Replace.{replace}
use lp_0008_logos_agent_modu.Std.Split.{split}
use lp_0008_logos_agent_modu.Std.Strings.{find, starts_with_char, ends_with_char}
use lp_0008_logos_agent_modu.Std.Trim.{trim, trim_end_matches}

-- All but the last character.
abbrev pub drop_last : Text → Text
drop_last [] = []
drop_last (c ∷ []) = []
drop_last (c ∷ d ∷ s) = c ∷ drop_last (d ∷ s)

-- `s[1..s.len() - 1]`. The slice panics, `none`, if its start lies behind its end.
abbrev pub slice_inner : Text → Option Text
slice_inner [] = none
slice_inner (c ∷ []) = none
slice_inner (c ∷ d ∷ s) = some (drop_last (d ∷ s))

-- `.replace("\\\"", "\"").replace("\\\\", "\\")`
unfoldable pub unescape : Text → Text
unescape s = replace (b'\\' ∷ b'\\' ∷ []) (b'\\' ∷ []) (replace (b'\\' ∷ b'"' ∷ []) (b'"' ∷ []) s)

unfoldable pub was_quoted : Text → Bool
was_quoted s =
    (starts_with_char b'"' s && ends_with_char b'"' s)
    || (starts_with_char b'\'' s && ends_with_char b'\'' s)

abbrev pub is_numeric_char : ℕ → Bool
is_numeric_char c = (leb b'0' c && leb c b'9') || (c == b'.') || (c == b'-')

abbrev pub all_numeric : Text → Bool
all_numeric [] = true
all_numeric (c ∷ s) = is_numeric_char c && all_numeric s

-- A numeric string literal goes out in quotes, so that it stays a string.
unfoldable pub rewrap : Text → Text
rewrap [] = []
rewrap (c ∷ s) = if all_numeric (c ∷ s) then b'"' ∷ (c ∷ s ++ b'"' ∷ []) else c ∷ s

-- The closure that reads one argument; `none` is the panic of its slice.
unfoldable pub read_arg : Text → Option Text
read_arg piece =
    let s = trim piece in
    let quoted : Option Text = elim (slice_inner s) [
      | none ↦ none
      | some inner ↦ some (rewrap (unescape inner))
    ] in
    if was_quoted s then quoted else some s

-- `.map(…).collect()`
unfoldable pub read_args : List Text → Option (List Text)
read_args [] = some []
read_args (p ∷ ps) = elim (read_arg p) [
  | none ↦ none
  | some a ↦ elim (read_args ps) [ none ↦ none | some rest ↦ some (a ∷ rest) ]
]

-- The last segment of the dotted path.
unfoldable pub method_name : Text → Text
method_name func_path =
    replace (b'.' ∷ []) (b'_' ∷ [])
      (elim (last? (split b'.' func_path)) [ none ↦ func_path | some segment ↦ segment ])

-- What stands between the parentheses.
unfoldable pub read_inner : Text → Text → Option (Text × List Text)
read_inner method inner =
    let args : Option (Text × List Text) = elim (read_args (split b',' inner)) [
      | none ↦ none
      | some args ↦ some (method, args)
    ] in
    elim (trim inner) [ [] ↦ some (method, []) | c ∷ s ↦ args ]

-- The method and its arguments; `none` is a panic.
unfoldable pub parse_call_expr : Text → Option (Text × List Text)
parse_call_expr expr = elim (find b'(' expr) [
  | none ↦ some (expr, [])
  | some paren ↦
      read_inner (method_name (take paren expr))
        (trim_end_matches (λ c. c == b')') (drop (suc paren) expr))
]

-- `format!("{method}({}, {})", json_str(a), json_str(b))`
unfoldable pub call_expr : Text → Text → Text → Text
call_expr method a b =
    method ++ (b'(' ∷ (json_str a ++ (b',' ∷ b' ' ∷ (json_str b ++ (b')' ∷ [])))))

unfoldable pub fund_call_expr : Text → Text → Text
fund_call_expr passphrase amount = call_expr (lit "wallet_fund") passphrase amount

pub parse_call_expr-meta_status :
    parse_call_expr (lit "meta_status()") ≡ some (lit "meta_status", [])
unfolding parse_call_expr find read_inner method_name trim trim_end_matches split replace
parse_call_expr-meta_status = refl
