-- ===== src/AgentCli/CallExpr/Commas.antt =====
-- Expressions whose values hold commas.
use lp_0008_logos_agent_modu.AgentCli.CallExpr.{
  was_quoted, read_arg, read_args, parse_call_expr, call_expr,
}
use lp_0008_logos_agent_modu.AgentCli.CallExpr.Unescape.{escaped-cons, escaped-nil}
use lp_0008_logos_agent_modu.AgentCli.CallExpr.Pieces.{inner, read_inner_args, parse-call_expr}
use lp_0008_logos_agent_modu.AgentCli.JsonStr.{
  hex_digit, push_escaped, escaped, json_str, json_str-escaped,
}
use lp_0008_logos_agent_modu.Base.{
  ℕ, ◌+◌, ◌≡◌, refl, sym, ap, ◌∙◌, inl, inr, none, some, List, [], ◌∷◌, ◌++◌, arith, Option-cases,
  length, length-append, Text, Lacks,
}
use lp_0008_logos_agent_modu.Std.Split.{
  split, split-append, split-append_all, count, count-append, length-split,
}
use lp_0008_logos_agent_modu.Std.Trim.{trim}

count-push_escaped : (c : ℕ) → count b',' (push_escaped c) ≡ count b',' (c ∷ [])
unfolding push_escaped hex_digit
count-push_escaped c = ground arith

count-escaped : (s : Text) → count b',' (escaped s) ≡ count b',' s
count-escaped [] = rw escaped-nil
count-escaped (c ∷ s) = rw escaped-cons (
    omega (
      arith,
      count-append b',' (push_escaped c) (escaped s),
      count-push_escaped c,
      count-escaped s,
    ))

count-json_str : (s : Text) → count b',' (json_str s) ≡ count b',' s
count-json_str s =
    rw json_str-escaped (omega (arith, count-append b',' (escaped s) (b'"' ∷ []), count-escaped s))

length-read_args : (ps args : List Text) → read_args ps ≡ some args → length args ≡ length ps
unfolding read_args
length-read_args [] args h = ground arith
length-read_args (p ∷ ps) args h = elim (Option-cases (read_args ps)) [
  | inl failed ↦ ground arith
  | inr (rest, done) ↦ ground (arith, length-read_args ps rest done)
]

read_args_panic :
    (ps qs : List Text) (p : Text) → read_arg p ≡ none → read_args (ps ++ p ∷ qs) ≡ none
unfolding read_args
read_args_panic [] qs p h = ground arith
read_args_panic (q ∷ ps) qs p h = ground (arith, read_args_panic ps qs p h)

-- If an expression is read at all, the call gets two arguments and one more for each comma in the
-- values: a comma inside a JSON literal separates arguments.
pub length-parse-call_expr :
    (m a b : Text) {args : List Text}
    → Lacks b'(' m
    → Lacks b'.' m
    → parse_call_expr (call_expr m a b) ≡ some (m, args)
    → length args ≡ 2 + count b',' a + count b',' b
length-parse-call_expr m a b {args} h k e =
    let read = sym (parse-call_expr m a b h k ∙ read_inner_args m a b) ∙ e in
    length-read_args (split b',' (inner a b)) args (ground arith)
    ∙ rw (split-append_all b',' (json_str a) (b' ' ∷ json_str b)) (
        omega (
          arith,
          length-append (split b',' (json_str a)) (split b',' (b' ' ∷ json_str b)),
          length-split b',' (json_str a),
          length-split b',' (b' ' ∷ json_str b),
          count-json_str a,
          count-json_str b,
        ))

read_lone_quote : read_arg (b' ' ∷ b'"' ∷ []) ≡ none
unfolding read_arg trim was_quoted
read_lone_quote = refl

json_str_comma : (s : Text) → json_str (b',' ∷ s) ≡ b'"' ∷ b',' ∷ (escaped s ++ b'"' ∷ [])
unfolding push_escaped
json_str_comma s = json_str-escaped (b',' ∷ s) ∙ rw escaped-cons

split-inner_comma :
    (a b : Text)
    → split b',' (inner a (b',' ∷ b))
      ≡ split b',' (json_str a) ++ ((b' ' ∷ b'"' ∷ []) ∷ split b',' (escaped b ++ b'"' ∷ []))
split-inner_comma a b = rw json_str_comma (
    split-append_all b',' (json_str a) _
    ∙ ap (λ ps. split b',' (json_str a) ++ ps)
        (split-append b',' (b' ' ∷ b'"' ∷ []) (escaped b ++ b'"' ∷ []) (omega arith)))

-- A second value that begins with a comma makes the reading of the expression panic.
pub parse-call_expr_panic :
    (m a b : Text) → Lacks b'(' m → Lacks b'.' m → parse_call_expr (call_expr m a (b',' ∷ b)) ≡ none
parse-call_expr_panic m a b h k =
    parse-call_expr m a (b',' ∷ b) h k
    ∙ read_inner_args m a (b',' ∷ b)
    ∙ rw (split-inner_comma a b)
        (rw (read_args_panic (split b',' (json_str a)) _ (b' ' ∷ b'"' ∷ []) read_lone_quote))
