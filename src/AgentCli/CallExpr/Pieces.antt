-- ===== src/AgentCli/CallExpr/Pieces.antt =====
-- How `parse_call_expr` takes an expression of two JSON literals apart.
use lp_0008_logos_agent_modu.AgentCli.CallExpr.{
  was_quoted, rewrap, read_arg, read_args, method_name, read_inner, parse_call_expr, call_expr,
}
use lp_0008_logos_agent_modu.AgentCli.CallExpr.Unescape.{
  Printable, unescape-escaped, slice_inner-json_str,
}
use lp_0008_logos_agent_modu.AgentCli.JsonStr.{escaped, json_str, json_str-escaped}
use lp_0008_logos_agent_modu.Base.{
  ◌≡◌, refl, ap, ◌∙◌, true, none, some, [], ◌∷◌, ◌++◌, append_assoc, ◌==◌, take-append,
  drop-append_suc, Text, Lacks,
}
use lp_0008_logos_agent_modu.Std.Replace.{replace-Lacks}
use lp_0008_logos_agent_modu.Std.Split.{split, split-Lacks}
use lp_0008_logos_agent_modu.Std.Strings.{find-append, ends_with_char-append}
use lp_0008_logos_agent_modu.Std.Trim.{
  trim, trim_end_matches, trim_end_matches_drop, trim_keep, trim_drop,
}

trim-json_str : (s : Text) → trim (json_str s) ≡ json_str s
trim-json_str s = rw json_str-escaped (trim_keep b'"' b'"' (escaped s) refl refl)

was_quoted-json_str : (s : Text) → was_quoted (json_str s) ≡ true
unfolding was_quoted
was_quoted-json_str s = rw json_str-escaped (rw (ends_with_char-append b'"' (b'"' ∷ escaped s)))

-- A literal without control characters is read as its text, in quotes if that is numeric.
pub read_arg-json_str : (s : Text) → Printable s → read_arg (json_str s) ≡ some (rewrap s)
unfolding read_arg
read_arg-json_str s h =
    rw (trim-json_str, was_quoted-json_str, slice_inner-json_str s, unescape-escaped s h)

pub read_arg_space : (s : Text) → read_arg (b' ' ∷ s) ≡ read_arg s
unfolding read_arg
read_arg_space s = rw (trim_drop b' ' s refl)

method_name_plain : (m : Text) → Lacks b'.' m → method_name m ≡ m
unfolding method_name
method_name_plain m h = rw (split-Lacks b'.' m h) (replace-Lacks b'.' (b'_' ∷ []) m h)

-- The text between the parentheses.
abbrev pub inner : Text → Text → Text
inner a b = json_str a ++ (b',' ∷ b' ' ∷ json_str b)

-- The same text up to its last quote, with and without its first.
abbrev open_inner : Text → Text → Text
open_inner a b = json_str a ++ (b',' ∷ b' ' ∷ b'"' ∷ escaped b)

abbrev middle : Text → Text → Text
middle a b = escaped a ++ (b'"' ∷ b',' ∷ b' ' ∷ b'"' ∷ escaped b)

inner-middle : (a b : Text) → inner a b ≡ b'"' ∷ (middle a b ++ b'"' ∷ [])
inner-middle a b = rw (json_str-escaped a, json_str-escaped b) (simp append_assoc)

trim-inner : (a b : Text) → trim (inner a b) ≡ b'"' ∷ (middle a b ++ b'"' ∷ [])
trim-inner a b = rw inner-middle (trim_keep b'"' b'"' (middle a b) refl refl)

trim_end-inner :
    (a b : Text)
    → trim_end_matches (λ c. c == b')') (json_str a ++ (b',' ∷ b' ' ∷ (json_str b ++ (b')' ∷ []))))
      ≡ inner a b
trim_end-inner a b =
    ap (trim_end_matches (λ c. c == b')')) (rw (json_str-escaped b) (simp append_assoc))
    ∙ trim_end_matches_drop (λ c. c == b')') b'"' b')' (open_inner a b) refl refl
    ∙ rw (json_str-escaped b) (simp append_assoc)

pub read_inner_args :
    (m a b : Text)
    → read_inner m (inner a b)
      ≡ elim (read_args (split b',' (inner a b))) [ none ↦ none | some args ↦ some (m, args) ]
unfolding read_inner
read_inner_args m a b = rw (trim-inner a b, read_inner)

-- With a plain method name only the arguments are left to read.
pub parse-call_expr :
    (m a b : Text)
    → Lacks b'(' m
    → Lacks b'.' m
    → parse_call_expr (call_expr m a b) ≡ read_inner m (inner a b)
unfolding parse_call_expr call_expr
parse-call_expr m a b h k =
    rw (find-append b'(' m _ h, parse_call_expr)
      (rw (take-append, drop-append_suc, method_name_plain m k, trim_end-inner))
