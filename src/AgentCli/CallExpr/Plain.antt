-- ===== src/AgentCli/CallExpr/Plain.antt =====
-- Expressions whose values hold no comma and no control character are read back.
use lp_0008_logos_agent_modu.AgentCli.CallExpr.{
  rewrap, read_arg, read_args, parse_call_expr, call_expr,
}
use lp_0008_logos_agent_modu.AgentCli.CallExpr.Unescape.{Printable, escaped-cons, escaped-nil}
use lp_0008_logos_agent_modu.AgentCli.CallExpr.Pieces.{
  inner, read_arg-json_str, read_arg_space, read_inner_args, parse-call_expr,
}
use lp_0008_logos_agent_modu.AgentCli.JsonStr.{
  hex_digit, push_escaped, escaped, json_str, json_str-escaped,
}
use lp_0008_logos_agent_modu.Base.{
  ℕ, ◌≡◌, ap, ◌∙◌, ◌≢◌, some, [], ◌∷◌, arith, All-append, Text, Lacks,
}
use lp_0008_logos_agent_modu.Std.Split.{split, split-Lacks, split-append}

-- A value that the call expression carries unharmed.
abbrev pub Plain : Text → Type 0
Plain s = Printable s × Lacks b',' s

push_escaped-Lacks : (c : ℕ) → c ≢ b',' → Lacks b',' (push_escaped c)
unfolding push_escaped hex_digit
push_escaped-Lacks c h = ground arith

escaped-Lacks : (s : Text) → Lacks b',' s → Lacks b',' (escaped s)
escaped-Lacks [] _ = rw escaped-nil tt
escaped-Lacks (c ∷ s) (h, hs) =
    rw escaped-cons
      (All-append _ (push_escaped c) (escaped s) (push_escaped-Lacks c h) (escaped-Lacks s hs))

json_str-Lacks : (s : Text) → Lacks b',' s → Lacks b',' (json_str s)
json_str-Lacks s h =
    rw json_str-escaped
      (omega arith, All-append _ (escaped s) (b'"' ∷ []) (escaped-Lacks s h) (omega arith))

split-inner :
    (a b : Text)
    → Lacks b',' a
    → Lacks b',' b
    → split b',' (inner a b) ≡ json_str a ∷ (b' ' ∷ json_str b) ∷ []
split-inner a b h k =
    split-append b',' (json_str a) (b' ' ∷ json_str b) (json_str-Lacks a h)
    ∙ ap (λ ps. json_str a ∷ ps)
        (split-Lacks b',' (b' ' ∷ json_str b) (omega arith, json_str-Lacks b k))

read_args_pair :
    (p q x y : Text)
    → read_arg p ≡ some x
    → read_arg q ≡ some y
    → read_args (p ∷ q ∷ []) ≡ some (x ∷ y ∷ [])
unfolding read_args
read_args_pair p q x y h k = rw (h, read_args) (rw (k, read_args))

-- A call expression with a plain method name and two values that hold no comma and no control
-- character is read as that method with the two values, each in quotes if it is numeric.
pub parse-call_expr-Plain :
    (m a b : Text)
    → Lacks b'(' m
    → Lacks b'.' m
    → Plain a
    → Plain b
    → parse_call_expr (call_expr m a b) ≡ some (m, rewrap a ∷ rewrap b ∷ [])
parse-call_expr-Plain m a b h k pa pb =
    parse-call_expr m a b h k
    ∙ read_inner_args m a b
    ∙ rw (split-inner a b pa.1 pb.1) (
        rw (
          read_args_pair (json_str a) (b' ' ∷ json_str b) (rewrap a) (rewrap b)
            (read_arg-json_str a pa.0) (read_arg_space (json_str b) ∙ read_arg-json_str b pb.0)))
