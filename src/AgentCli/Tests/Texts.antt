-- ===== src/AgentCli/Tests/Texts.antt =====
-- The theorems on JSON literals and call expressions at concrete data.
use lp_0008_logos_agent_modu.Base.{
  ◌+◌, ◌≡◌, refl, none, some, [], ◌∷◌, ◌++◌, arith, length, Text, lit,
}
use lp_0008_logos_agent_modu.Std.Strings.{find}
use lp_0008_logos_agent_modu.Std.Trim.{trim, trim_end_matches}
use lp_0008_logos_agent_modu.Std.Split.{split}
use lp_0008_logos_agent_modu.Std.Replace.{replace}
use lp_0008_logos_agent_modu.AgentCli.JsonStr.{json_str, escape_loop, push_escaped}
use lp_0008_logos_agent_modu.AgentCli.JsonStr.Decode.{read_literal, read_literal-json_str}
use lp_0008_logos_agent_modu.AgentCli.CallExpr.{
  parse_call_expr, call_expr, rewrap, unescape, read_inner, method_name, read_args, read_arg,
  was_quoted,
}
use lp_0008_logos_agent_modu.AgentCli.CallExpr.Plain.{parse-call_expr-Plain}
use lp_0008_logos_agent_modu.AgentCli.CallExpr.Commas.{
  length-parse-call_expr, parse-call_expr_panic,
}

read_literal-json_str_example :
    read_literal (json_str (lit "a\"b") ++ lit ", 1") ≡ some (lit "a\"b", lit ", 1")
read_literal-json_str_example = read_literal-json_str (lit "a\"b") (lit ", 1")

parse-call_expr-Plain_example :
    parse_call_expr (call_expr (lit "set") (lit "k") (lit "50"))
    ≡ some (lit "set", rewrap (lit "k") ∷ rewrap (lit "50") ∷ [])
parse-call_expr-Plain_example =
    parse-call_expr-Plain (lit "set") (lit "k") (lit "50") (omega arith) (omega arith)
      (omega arith, omega arith) (omega arith, omega arith)

-- The number is put into quotes again.
rewrap_number : rewrap (lit "50") ≡ lit "\"50\""
unfolding rewrap
rewrap_number = refl

parse_three :
    parse_call_expr (call_expr (lit "f") (lit "a,b") (lit "c"))
    ≡ some (lit "f", lit "\"a" ∷ lit "b\"" ∷ lit "c" ∷ [])
unfolding parse_call_expr call_expr json_str escape_loop push_escaped find read_inner method_name
    trim trim_end_matches split replace read_args read_arg was_quoted rewrap unescape
parse_three = refl

length-parse-call_expr_example :
    length {A = Text} (lit "\"a" ∷ lit "b\"" ∷ lit "c" ∷ []) ≡ 2 + 1 + 0
length-parse-call_expr_example =
    length-parse-call_expr (lit "f") (lit "a,b") (lit "c") (omega arith) (omega arith) parse_three

parse-call_expr_panic_example :
    parse_call_expr (call_expr (lit "set") (lit "k") (b',' ∷ lit "x")) ≡ none
parse-call_expr_panic_example =
    parse-call_expr_panic (lit "set") (lit "k") (lit "x") (omega arith) (omega arith)
